-- ===== src/Http/Reply.antt =====
-- `reply::stock_reply` of src/reply.cc.
use boost_web_server.Common.{ℕ, [], ◌==◌, if◌then◌else◌, Bytes, codes}

unfoldable pub stock_reply : ℕ → Bytes
stock_reply err_code =
    if err_code == 201
    then codes "<html><head><title>Created</title></head><body><h1>201 Created</h1></body></html>"
    else if err_code == 202
    then codes "<html><head><title>Accepted</title></head><body><h1>202 Accepted</h1></body></html>"
    else if err_code == 204
    then codes
        "<html><head><title>No Content</title></head><body><h1>204 Content</h1></body></html>"
    else if err_code == 300
    then codes
        "<html><head><title>Multiple Choices</title></head><body><h1>300 Multiple Choices</h1></body></html>"
    else if err_code == 301
    then codes
        "<html><head><title>Moved Permanently</title></head><body><h1>301 Moved Permanently</h1></body></html>"
    else if err_code == 302
    then codes
        "<html><head><title>Moved Temporarily</title></head><body><h1>302 Moved Temporarily</h1></body></html>"
    else if err_code == 304
    then codes
        "<html><head><title>Not Modified</title></head><body><h1>304 Not Modified</h1></body></html>"
    else if err_code == 400
    then codes
        "<html><head><title>Bad Request</title></head><body><h1>400 Bad Request</h1></body></html>"
    else if err_code == 401
    then codes
        "<html><head><title>Unauthorized</title></head><body><h1>401 Unauthorized</h1></body></html>"
    else if err_code == 403
    then codes
        "<html><head><title>Forbidden</title></head><body><h1>403 Forbidden</h1></body></html>"
    else if err_code == 404
    then codes
        "<html><head><title>Not Found</title></head><body><h1>404 Not Found</h1></body></html>"
    else if err_code == 500
    then codes
        "<html><head><title>Internal Server Error</title></head><body><h1>500 Internal Server Error</h1></body></html>"
    else if err_code == 501
    then codes
        "<html><head><title>Not Implemented</title></head><body><h1>501 Not Implemented</h1></body></html>"
    else if err_code == 502
    then codes
        "<html><head><title>Bad Gateway</title></head><body><h1>502 Bad Gateway</h1></body></html>"
    else if err_code == 503
    then codes
        "<html><head><title>Service Unavailable</title></head><body><h1>503 Service Unavailable</h1></body></html>"
    else []

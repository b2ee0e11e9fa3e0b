-- ===== src/Config/Examples.antt =====
-- The theorems on the port and the paths of src/config_parser.cc at concrete configurations.
use boost_web_server.Common.{
  ℕ, ◌≤◌, ◌≡◌, refl, [], ◌∷◌, codes, find_last_not_of, pos, isspace, isdigit, stoi, map_find,
  map_set, map_index, invalid_argument, ok, err, ◌=s=◌,
}
use boost_web_server.Config.Tree.{NginxConfig, nil, cons, NginxConfigStatement, statement, block}
use boost_web_server.Config.Port.{check_port, listen_argument, listen_loop, get_listen_port}
use boost_web_server.Config.Port.Laws.{
  get_listen_port_bounds, IsPlain, empty, other, NoListen, get_listen_port_behind_block,
}
use boost_web_server.Config.Parser.Printable.{◌+++◌}
use boost_web_server.Config.Paths.{
  static_, auth, ConfigPath, default_path, token_at, child_statements, trim_slashes, root_loop,
  plain_path, auth_pair, auth_loop, console_path, console_step, console_loop, handler_name,
  add_paths, location_paths, get_paths, get_root, get_auth_path_map,
}

-- Names once what a run computes with.
lookup_code : Unit {0}
unfolding check_port listen_argument listen_loop get_listen_port ◌=s=◌ stoi isspace isdigit token_at
    child_statements trim_slashes find_last_not_of root_loop plain_path auth_loop console_path
    console_step console_loop handler_name add_paths location_paths get_paths get_root
    get_auth_path_map map_set map_index map_find auth_pair
lookup_code = tt

abbrev root_line : NginxConfig
root_line = cons (statement (codes "root" ∷ codes "x" ∷ [])) nil

abbrev port_line : NginxConfigStatement
port_line = statement (codes "listen" ∷ codes "80" ∷ [])

abbrev static_block : NginxConfig
static_block =
    cons (block (codes "location" ∷ codes "/s//" ∷ codes "StaticHandler" ∷ []) root_line) nil

root_line-IsPlain : IsPlain root_line
unfolding lookup_code
root_line-IsPlain = other refl empty

root_line-NoListen : NoListen root_line
unfolding lookup_code
root_line-NoListen = other refl empty

port_run : get_listen_port (root_line +++ cons port_line nil) ≡ ok (pos 80)
unfolding lookup_code
port_run = refl

paths_run :
    get_paths static_block []
    ≡ ok (
        record {
          type = static_;
          endpoint = codes "/s";
          root = codes "x";
          config_key_to_path_map = [];
        }
        ∷ [])
unfolding lookup_code
paths_run = refl

get_listen_port_bounds_example : (n : ℕ) × (pos 80 ≡ pos n) × (1 ≤ n) × (n ≤ 65535)
get_listen_port_bounds_example =
    get_listen_port_bounds (root_line +++ cons port_line nil) (pos 80) port_run

first_port_run : get_listen_port (root_line +++ cons port_line static_block) ≡ ok (pos 80)
unfolding lookup_code
first_port_run = refl

no_port_run : get_listen_port root_line ≡ err invalid_argument
unfolding lookup_code
no_port_run = refl

get_listen_port_behind_block_example :
    get_listen_port
      (root_line +++ cons (block (codes "location" ∷ []) root_line) (cons port_line nil))
    ≡ err invalid_argument
get_listen_port_behind_block_example =
    get_listen_port_behind_block (codes "location" ∷ []) (cons port_line nil) root_line-IsPlain
      root_line-NoListen

abbrev echo_path : ConfigPath
echo_path = record default_path { endpoint = codes "/" }

abbrev auth_path : ConfigPath
auth_path = record {
  type = auth;
  endpoint = codes "/auth";
  root = codes "r";
  config_key_to_path_map = (codes "root", codes "r") ∷ [];
}

get_root_run :
    (get_root (echo_path ∷ auth_path ∷ []) (codes "/auth") ≡ codes "r")
    × (get_root (echo_path ∷ []) (codes "/auth") ≡ [])
unfolding get_root ◌=s=◌
get_root_run = (refl, refl)

auth_path_map_run :
    get_auth_path_map (echo_path ∷ auth_path ∷ []) (codes "/other")
    ≡ auth_path.config_key_to_path_map
unfolding get_auth_path_map ◌=s=◌
auth_path_map_run = refl

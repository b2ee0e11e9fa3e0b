-- ===== src/Profile/Cookie.antt =====
-- From the login of src/profile_manager.cc to the user that src/session.cc takes from the cookie.
use boost_web_server.Common.{◌≡◌, ◌≢◌, ◌∙◌, [], ◌∷◌, ◌++◌, ap, Bytes}
use boost_web_server.Profile.{split_bars}
use boost_web_server.Profile.Lines.{HasNo, split_bars-field, split_bars-last}

pub three_fields :
    (a b c : Bytes)
    → HasNo b'|' a
    → HasNo b'|' b
    → HasNo b'|' c
    → c ≢ []
    → split_bars (a ++ (b'|' ∷ (b ++ (b'|' ∷ c)))) ≡ a ∷ b ∷ c ∷ []
three_fields a b c h k l ne =
    split_bars-field a (b ++ (b'|' ∷ c)) h
    ∙ ap (◌∷◌ a) (split_bars-field b c k ∙ ap (◌∷◌ b) (split_bars-last c l ne))

-- ===== src/Session.antt =====
-- src/session.cc: the choice of a route.
pub mod Matching
use boost_web_server.Common.{
  ℕ, zero, suc, true, false, Option, none, some, [], ◌∷◌, length, take, Bytes, rfind, Map, map_has,
}

-- The loop of `match`: `at` is `pos`, where the string is cut next, or `npos`. `none` means that the
-- fuel ran out.
unfoldable pub match_loop {ℓ} : {V : Type ℓ} → ℕ → Map V → Bytes → ℕ → Option Bytes
match_loop zero routes matched_str at = none
match_loop (suc fuel) routes matched_str at =
    let cut = take at matched_str in
    elim (map_has cut routes) [
      | true ↦ some cut
      | false ↦ elim (rfind b'/' cut) [
        | none ↦ some (b'/' ∷ [])
        | some next ↦ match_loop fuel routes cut next
      ]
    ]

-- `session::match`; every round but the last cuts off at least one byte.
unfoldable pub match {ℓ} : {V : Type ℓ} → Map V → Bytes → Option Bytes
unfolding match_loop
match routes url = match_loop (suc (length url)) routes url (length url)

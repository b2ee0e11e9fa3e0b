-- ===== src/Session/Matching.antt =====
-- `session::match` of src/session.cc finds the longest route that is the path or a prefix of it
-- up to a slash.
use boost_web_server.Common.{
  ℕ, zero, suc, ◌≤◌, ◌<◌, ◌≡◌, refl, sym, ap, ◌∙◌, ◌≢◌, inl, inr, true, false, false≢true, none,
  some, [], ◌∷◌, ◌++◌, append_assoc, arith, Bool-cases, Option-cases, length, take, take-length,
  length-append, Bytes, rfind, Map, map_has,
}
use boost_web_server.Session.{match_loop, match}

-- The url itself, or what stands before one of its slashes.
pub data IsCandidate (url p : Bytes) : Type 0 where
  whole : p ≡ url → IsCandidate url p
  cut : (rest : Bytes) → url ≡ p ++ (b'/' ∷ rest) → IsCandidate url p

rfind-none : (s p rest : Bytes) → rfind b'/' s ≡ none → s ≢ p ++ (b'/' ∷ rest)
unfolding rfind
rfind-none [] [] rest h e = cc
rfind-none [] (y ∷ p) rest h e = cc
rfind-none (x ∷ s) [] rest h e = ground arith
rfind-none (x ∷ s) (y ∷ p) rest h e = rfind-none s p rest (ground arith) (ground arith)

-- What `rfind` finds splits the string at its last slash.
rfind-some :
    (s : Bytes) (i : ℕ)
    → rfind b'/' s ≡ some i
    → (post : Bytes) × (s ≡ take i s ++ (b'/' ∷ post)) × (rfind b'/' post ≡ none)
unfolding rfind
rfind-some [] i h = cc
rfind-some (x ∷ s) i h = elim (Option-cases (rfind b'/' s)) [
  | inl e ↦ let zero_at : i ≡ 0 = ground arith in rw zero_at (s, ground arith, e)
  | inr (j, e) ↦
      let at_suc : i ≡ suc j = ground arith in
      let (post, split, last) = rfind-some s j e in rw at_suc (post, ap (◌∷◌ x) split, last)
]

tail-eq : {x y : ℕ} {s t : Bytes} → ◌≡◌ {A = Bytes} (x ∷ s) (y ∷ t) → (x ≡ y) × (s ≡ t)
tail-eq e = (cc, cc)

IsCandidate-cons : {s p : Bytes} (x : ℕ) → IsCandidate s p → IsCandidate (x ∷ s) (x ∷ p)
IsCandidate-cons x (whole e) = whole (ap (◌∷◌ x) e)
IsCandidate-cons x (cut rest e) = cut rest (ap (◌∷◌ x) e)

-- A prefix up to a slash is one of what stands before the last slash.
IsCandidate-before :
    (a p post rest : Bytes)
    → rfind b'/' post ≡ none
    → a ++ (b'/' ∷ post) ≡ p ++ (b'/' ∷ rest)
    → IsCandidate a p
IsCandidate-before [] [] post rest h e = whole refl
IsCandidate-before [] (y ∷ p) post rest h e = absurd (rfind-none post p rest h (tail-eq e).1)
IsCandidate-before (x ∷ a) [] post rest h e = cut a (rw (tail-eq e).0)
IsCandidate-before (x ∷ a) (y ∷ p) post rest h e =
    rw (← (tail-eq e).0) (IsCandidate-cons x (IsCandidate-before a p post rest h (tail-eq e).1))

pub candidate_length : {s p : Bytes} → IsCandidate s p → length p ≤ length s
candidate_length (whole e) = omega (arith, ap length e)
candidate_length {p} (cut rest e) = omega (arith, ap length e, length-append p (b'/' ∷ rest))

IsCandidate-append :
    {s p : Bytes} (post : Bytes) → IsCandidate s p → IsCandidate (s ++ (b'/' ∷ post)) p
IsCandidate-append post (whole e) = cut post (rw e)
IsCandidate-append post (cut rest e) = cut (rest ++ (b'/' ∷ post)) (rw e (rw append_assoc))

module _ {ℓ} {V : Type ℓ} (routes : Map V) where
  -- `m` is the longest route among the candidates, or `/` because no candidate is a route.
  pub data IsMatch (url m : Bytes) : Type ℓ where
    longest :
        IsCandidate url m
        → map_has m routes ≡ true
        → ((p : Bytes) → IsCandidate url p → map_has p routes ≡ true → length p ≤ length m)
        → IsMatch url m
    default :
        m ≡ b'/' ∷ [] → ((p : Bytes) → IsCandidate url p → map_has p routes ≡ false) → IsMatch url m

  -- A candidate of the string is the string, or one of what stands before its last slash.
  IsMatch-cut :
      {s m : Bytes} (a post : Bytes)
      → s ≡ a ++ (b'/' ∷ post)
      → rfind b'/' post ≡ none
      → map_has s routes ≡ false
      → IsMatch a m
      → IsMatch s m
  IsMatch-cut {s} {m} a post e last missed (longest c h max) =
      longest (rw e (IsCandidate-append post c)) h above
    where
      above : (p : Bytes) → IsCandidate s p → map_has p routes ≡ true → length p ≤ length m
      above p (whole same) k = absurd (false≢true (sym missed ∙ rw (← same) k))
      above p (cut rest same) k = max p (IsCandidate-before a p post rest last (sym e ∙ same)) k
  IsMatch-cut {s} {m} a post e last missed (default d none_of) = default d other
    where
      other : (p : Bytes) → IsCandidate s p → map_has p routes ≡ false
      other p (whole same) = rw same missed
      other p (cut rest same) = none_of p (IsCandidate-before a p post rest last (sym e ∙ same))

  IsMatch-last :
      {s : Bytes} → rfind b'/' s ≡ none → map_has s routes ≡ false → IsMatch s (b'/' ∷ [])
  IsMatch-last {s} last missed = default refl other
    where
      other : (p : Bytes) → IsCandidate s p → map_has p routes ≡ false
      other p (whole same) = rw same missed
      other p (cut rest same) = absurd (rfind-none s p rest last same)

  match_loop_lem :
      (fuel : ℕ) (s matched_str : Bytes) (at : ℕ)
      → take at matched_str ≡ s
      → length s < fuel
      → (m : Bytes) × (match_loop fuel routes matched_str at ≡ some m) × IsMatch s m
  unfolding match_loop
  match_loop_lem zero s matched_str at e h = absurd (omega arith)
  match_loop_lem (suc fuel) s matched_str at e h = elim (Bool-cases (map_has s routes)) [
    | inl found ↦ (s, ground arith, longest (whole refl) found (λ p c _. candidate_length c))
    | inr missed ↦ elim (Option-cases (rfind b'/' s)) [
      | inl last ↦ (b'/' ∷ [], ground arith, IsMatch-last last missed)
      | inr (i, found) ↦
          let (post, split, last) = rfind-some s i found in
          let shorter : length (take i s) < length s =
            omega (arith, ap length split, length-append (take i s) (b'/' ∷ post)) in
          let (m, run, is_match) = match_loop_lem fuel (take i s) s i refl (omega arith) in
          (m, ground arith, IsMatch-cut (take i s) post split last missed is_match)
    ]
  ]

  -- `match` always ends. It gives the longest route among the path and its prefixes up to a
  -- slash, or `/` if none of these is a route.
  pub match_lem : (url : Bytes) → (m : Bytes) × (match routes url ≡ some m) × IsMatch url m
  unfolding match
  match_lem url =
      match_loop_lem (suc (length url)) url url (length url) (take-length url) (omega arith)

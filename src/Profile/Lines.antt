-- ===== src/Profile/Lines.antt =====
-- The lines and fields of the file of src/profile_manager.cc.
use boost_web_server.Common.{
  ℕ, ◌≡◌, refl, ap, ◌∙◌, ◌≢◌, false, some, [], ◌∷◌, ◌++◌, append_assoc, arith, All, Bytes, isdigit,
  IsDigits,
}
use boost_web_server.Profile.{
  lines, cut_bar, split_bars, db_email, Fields, name_fields, line_fields,
}

abbrev pub HasNo : ℕ → Bytes → Type 0
HasNo c = All (λ d. d ≢ c)

-- A text of complete lines.
pub data IsClosed : Bytes → Type 0 where
  empty : {text : Bytes} → text ≡ [] → IsClosed text
  line :
      {text : Bytes} (l rest : Bytes)
      → HasNo b'\n' l
      → IsClosed rest
      → text ≡ l ++ (b'\n' ∷ rest)
      → IsClosed text

pub lines_cons : (l rest : Bytes) → HasNo b'\n' l → lines (l ++ (b'\n' ∷ rest)) ≡ l ∷ lines rest
unfolding lines
lines_cons [] rest h = refl
lines_cons (c ∷ l) rest h = ground (arith, lines_cons l rest h.1)

pub lines-append :
    {text : Bytes} (s : Bytes) → IsClosed text → lines (text ++ s) ≡ lines text ++ lines s
lines-append s (empty e) = rw e (unfold lines in refl)
lines-append s (line l rest h c e) = rw e (
    rw append_assoc
      (lines_cons l (rest ++ s) h ∙ rw (lines_cons l rest h) (ap (◌∷◌ l) (lines-append s c))))

pub lines_one : (l : Bytes) → HasNo b'\n' l → lines (l ++ b'\n' ∷ []) ≡ l ∷ []
lines_one l h = lines_cons l [] h ∙ unfold lines in refl

pub IsClosed-append :
    {text : Bytes} (l : Bytes)
    → HasNo b'\n' l
    → IsClosed text
    → IsClosed (text ++ (l ++ b'\n' ∷ []))
IsClosed-append l h (empty e) = line l [] h (empty refl) (rw e)
IsClosed-append l h (line k rest g c e) =
    line k (rest ++ (l ++ b'\n' ∷ [])) g (IsClosed-append l h c) (rw e (simp append_assoc))

pub cut_bar-field : (a rest : Bytes) → HasNo b'|' a → cut_bar (a ++ (b'|' ∷ rest)) ≡ some (a, rest)
unfolding cut_bar
cut_bar-field [] rest h = refl
cut_bar-field (c ∷ a) rest h = ground (arith, cut_bar-field a rest h.1)

pub split_bars-field :
    (a rest : Bytes) → HasNo b'|' a → split_bars (a ++ (b'|' ∷ rest)) ≡ a ∷ split_bars rest
unfolding split_bars
split_bars-field [] rest h = refl
split_bars-field (c ∷ a) rest h = ground (arith, split_bars-field a rest h.1)

pub split_bars-last : (a : Bytes) → HasNo b'|' a → a ≢ [] → split_bars a ≡ a ∷ []
unfolding split_bars
split_bars-last [] h ne = absurd (ne refl)
split_bars-last (c ∷ []) h ne = ground arith
split_bars-last (c ∷ d ∷ a) h ne = ground (arith, split_bars-last (d ∷ a) h.1 (λ e. cc))

pub HasNo-append : (c : ℕ) (a b : Bytes) → HasNo c a → HasNo c b → HasNo c (a ++ b)
HasNo-append c [] b h k = k
HasNo-append c (x ∷ a) b h k = (h.0, HasNo-append c a b h.1 k)

pub digits-HasNo : (c : ℕ) (s : Bytes) → isdigit c ≡ false → IsDigits s → HasNo c s
digits-HasNo c [] e h = tt
digits-HasNo c (d ∷ s) e h = (λ same. cc, digits-HasNo c s e h.1)

-- `login` reads the same email from a line as `signup`.
pub line_fields-email :
    (l : Bytes) (f : Fields) → line_fields l ≡ some f → db_email l ≡ some f.email
unfolding line_fields db_email name_fields
line_fields-email l f e = ground arith

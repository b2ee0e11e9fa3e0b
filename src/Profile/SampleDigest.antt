-- ===== src/Profile/SampleDigest.antt =====
-- In place of the digest of src/profile_manager.cc, for the tests, a function that only looks at the
-- length of the password.
use boost_web_server.Common.{ℕ, zero, suc, ◌+◌, ◌%◌, refl, ◌≢◌, [], ◌∷◌, arith, length, Bytes}
use boost_web_server.Profile.Lines.{HasNo}
use boost_web_server.Profile.Login.{IsDigest}

abbrev repeated : ℕ → ℕ → Bytes
repeated c zero = []
repeated c (suc n) = c ∷ repeated c n

abbrev pub digest : Bytes → Bytes
digest s = repeated (b'0' + length s % 10) 64

repeated-HasNo : (c n : ℕ) → c ≢ b'\n' → HasNo b'\n' (repeated c n)
repeated-HasNo c zero h = tt
repeated-HasNo c (suc n) h = (h, repeated-HasNo c n h)

pub digest-IsDigest : IsDigest digest
digest-IsDigest = record {
  digest_length = λ s. refl;
  digest_bytes = λ s. repeated-HasNo (b'0' + length s % 10) 64 (omega arith);
}

-- ===== src/Password.antt =====
-- password.go and Argon2Params of config.go: hashing passwords with Argon2id, and the text that a
-- hash is stored as.
--
-- `Primitives` stands for norm.NFKC, HMAC-SHA256, argon2.IDKey and crypto/rand.
pub mod Costs
pub mod Stored
pub mod Hashing
use sulis.Base.{ℕ, Bool}
use sulis.Base.Text.{Text}
use sulis.Exec.{Exec}

pub record Argon2Params : Type 0 where
  pub memory : ℕ
  pub iterations : ℕ
  pub parallelism : ℕ
  pub salt_length : ℕ
  pub key_length : ℕ

pub record Primitives (W : Type 0) : Type 0 where
  pub nfkc : Text → Text
  -- the key, then the message
  pub hmac_sha256 : Text → Text → Text
  -- the password, the salt, the iterations, the memory, the parallelism and the length of the key
  pub id_key : Text → Text → ℕ → ℕ → ℕ → ℕ → Text
  -- whether argon2.IDKey panics at these iterations, memory, parallelism and length of the key
  pub id_key_panics : ℕ → ℕ → ℕ → ℕ → Bool
  pub random_bytes : ℕ → Exec W Text

-- ===== src/Base/Http.antt =====
-- Answers of HTTP services.
use Prim.Native.Nat.{ℕ}
use Prim.Native.String.{String}

-- An answer with its status, its body as a text, and what the body was decoded to.
pub record HttpReply (A : Type 0) : Type 0 where
  pub status : ℕ
  pub body : String
  pub value : A

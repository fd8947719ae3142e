-- ===== src/Grpc/Encoding.antt =====
-- The frames of a gRPC message as internal/proxy/grpc.go reads them, written: a flag, the length of the
-- payload in four bytes, the most significant first, and the payload.
use api_x.Base.{
  ℕ, ◌/◌, ◌%◌, ◌<◌, ◌^◌, Text, Bool, List, [], ◌∷◌, ◌++◌, length, if◌then◌else◌, ◌≡◌, arith,
}
use api_x.Grpc.{uint32}

pub record Frame : Type 0 where
  pub compressed : Bool
  pub payload : Text

abbrev pub flag_of : Frame → ℕ
flag_of f = if f.compressed then 1 else 0

abbrev pub bytes_of : ℕ → Text → Text
bytes_of n tail = n / 16777216 ∷ n / 65536 % 256 ∷ n / 256 % 256 ∷ n % 256 ∷ tail

abbrev pub encode : List Frame → Text
encode [] = []
encode (f ∷ fs) = flag_of f ∷ bytes_of (length f.payload) (f.payload ++ encode fs)

-- A payload's length is written in 32 bits.
abbrev pub Fits : Frame → Type 0
Fits f = length f.payload < 2 ^ 32

pub uint32-bytes_of :
    (n : ℕ) → uint32 (n / 16777216) (n / 65536 % 256) (n / 256 % 256) (n % 256) ≡ n
uint32-bytes_of n = omega arith

pub bytes_of-uint32 :
    (a b c d : ℕ) (tail : Text)
    → a < 256
    → b < 256
    → c < 256
    → d < 256
    → bytes_of (uint32 a b c d) tail ≡ a ∷ b ∷ c ∷ d ∷ tail
bytes_of-uint32 a b c d tail ha hb hc hd =
    let ea : uint32 a b c d / 16777216 ≡ a = omega arith in
    let eb : uint32 a b c d / 65536 % 256 ≡ b = omega arith in
    let ec : uint32 a b c d / 256 % 256 ≡ c = omega arith in
    let ed : uint32 a b c d % 256 ≡ d = omega arith in rw (ea, eb, ec, ed)

pub uint32_bound : (a b c d : ℕ) → a < 256 → b < 256 → c < 256 → d < 256 → uint32 a b c d < 2 ^ 32
uint32_bound a b c d ha hb hc hd = omega arith

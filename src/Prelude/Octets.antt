-- ===== src/Prelude/Octets.antt =====
-- Bytes are native numbers below 256; the bound is a predicate. `Vec<u8>`, `&[u8]`, `Bytes` and
-- the UTF-8 bytes of a `String` are lists of them.
use Prim.Native.Nat.{ℕ, ◌+◌, ◌*◌, ◌/◌, ◌%◌, ◌<◌}
use Prim.Native.Char.{code}
use Prim.Native.String.{String}
use mathlib.Core.List.{List, [], ◌∷◌}
use velux2mqtt.Prelude.Lists.{All}

abbrev pub Bytes : Type 0
Bytes = List ℕ

abbrev pub IsByte : ℕ → Type 0
IsByte b = b < 256

abbrev pub IsBytes : Bytes → Type 0
IsBytes bs = All IsByte bs

-- The bytes of an ASCII literal.
abbrev pub ascii : String → Bytes
ascii String.[] = []
ascii (String.◌∷◌ c s) = code c ∷ ascii s

-- `u16::from_be_bytes` and `u16::to_be_bytes`.
abbrev pub from_be_bytes : ℕ → ℕ → ℕ
from_be_bytes hi lo = hi * 256 + lo

abbrev pub to_be_bytes : ℕ → Bytes
to_be_bytes n = n / 256 % 256 ∷ (n % 256) ∷ []

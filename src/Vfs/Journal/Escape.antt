-- ===== src/Vfs/Journal/Escape.antt =====
-- The escape of a block that begins like a block of the journal is undone by doing it again.
use Prim.Native.Nat.{bit_xor}
use werunos.Base.{
  ℕ, zero, suc, ◌+◌, ◌≤◌, ◌<◌, ◌≡◌, refl, ap₂, Bool, true, List, [], ◌∷◌, length, byte_at, IsBytes,
  le, le_cong, ◌==◌, arith, if◌then◌else◌, false,
}
use werunos.Vfs.Journal.{xor_front, esc_bytes}

-- The bytes under a bound that the byte of the escape returns when it is applied twice.
returns_below : ℕ → ℕ → Bool
returns_below e zero = true
returns_below e (suc bound) =
    if bit_xor (bit_xor bound e) e == bound then returns_below e bound else false

returns_below-bit_xor :
    (e bound byte : ℕ)
    → byte < bound
    → returns_below e bound ≡ true
    → bit_xor (bit_xor byte e) e ≡ byte
unfolding returns_below
returns_below-bit_xor e zero byte lt all = absurd (omega arith)
returns_below-bit_xor e (suc bound) byte lt all = ground (arith, returns_below-bit_xor e bound byte)

-- The bytes of the escape, each a byte that returns every byte.
unfoldable AllReturn : List ℕ → Type 0
AllReturn [] = Unit
AllReturn (e ∷ es) = (returns_below e 256 ≡ true) × AllReturn es

esc_bytes-AllReturn : AllReturn esc_bytes
unfolding AllReturn returns_below
esc_bytes-AllReturn = (refl, (refl, (refl, (refl, tt))))

xor_front-xor_front_by :
    (es bytes : List ℕ) → AllReturn es → IsBytes bytes → xor_front es (xor_front es bytes) ≡ bytes
unfolding xor_front AllReturn
xor_front-xor_front_by [] bytes a b = refl
xor_front-xor_front_by (e ∷ es) [] a b = refl
xor_front-xor_front_by (e ∷ es) (x ∷ bytes) (a, all) (b, bs) =
    ap₂ (λ (y : ℕ) (ys : List ℕ). y ∷ ys) (returns_below-bit_xor e 256 x b a)
      (xor_front-xor_front_by es bytes all bs)

pub xor_front-xor_front :
    (bytes : List ℕ) → IsBytes bytes → xor_front esc_bytes (xor_front esc_bytes bytes) ≡ bytes
xor_front-xor_front bytes b = xor_front-xor_front_by esc_bytes bytes esc_bytes-AllReturn b

byte_at-xor_front_behind :
    (es bytes : List ℕ) (i : ℕ) → length es ≤ i → byte_at (xor_front es bytes) i ≡ byte_at bytes i
unfolding xor_front
byte_at-xor_front_behind [] bytes i le = refl
byte_at-xor_front_behind (e ∷ es) [] i le = refl
byte_at-xor_front_behind (e ∷ es) (x ∷ bytes) zero le = absurd (omega arith)
byte_at-xor_front_behind (e ∷ es) (x ∷ bytes) (suc i) le =
    byte_at-xor_front_behind es bytes i (omega arith)

-- The escape leaves the type of a block as it is.
pub le-xor_front : (bytes : List ℕ) → le 4 (xor_front esc_bytes bytes) 4 ≡ le 4 bytes 4
le-xor_front bytes =
    le_cong 4 (xor_front esc_bytes bytes) bytes 4 4
      λ i lt. byte_at-xor_front_behind esc_bytes bytes (4 + i) (omega arith)

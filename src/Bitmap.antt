-- ===== src/Bitmap.antt =====
-- `struct bitmap_t` and its inline functions (lib/secure_gateway.h). A `uint64_t` is a number below
-- 2 ^ 64, and `~x` its complement in 64 bits. Beyond the array C gives no meaning; here a read there
-- gives 0 and a write does nothing, and the callers stay inside.
pub mod Laws
mod Tests
use secure_mavlink_gateway.Prelude.{
  ℕ, ◌+◌, ◌-◌, ◌/◌, ◌%◌, ◌^◌, bit_and, bit_or, bit_xor, List, [], ◌∷◌, get_or, set, replicate,
}
use secure_mavlink_gateway.Prelude.Bits.{all_but}

abbrev pub bitmap_max_len : ℕ
bitmap_max_len = 64

-- `uint64_t data[BITMAP_MAX_LEN / 64 + 1]`
pub record Bitmap : Type 0 where
  pub words : List ℕ

-- `sizeof(bitmap->data)` in words
abbrev pub word_count : ℕ
word_count = bitmap_max_len / 64 + 1

-- `1ULL << (index % 64)`
abbrev pub bit_of : ℕ → ℕ
bit_of index = 2 ^ (index % 64)

abbrev pub word_of : Bitmap → ℕ → ℕ
word_of bitmap index = get_or bitmap.words (index / 64) 0

abbrev pub put_word : Bitmap → ℕ → ℕ → Bitmap
put_word bitmap index w = record bitmap { words = set bitmap.words (index / 64) w }

pub bitmap_clear : Bitmap → Bitmap
bitmap_clear bitmap = record bitmap { words = replicate word_count 0 }

unfoldable pub bitmap_set : Bitmap → ℕ → Bitmap
bitmap_set bitmap index = put_word bitmap index (bit_or (word_of bitmap index) (bit_of index))

pub bitmap_unset : Bitmap → ℕ → Bitmap
bitmap_unset bitmap index =
    put_word bitmap index (bit_and (word_of bitmap index) (all_but 64 (index % 64)))

pub bitmap_toggle : Bitmap → ℕ → Bitmap
bitmap_toggle bitmap index = put_word bitmap index (bit_xor (word_of bitmap index) (bit_of index))

-- The 32 bits of the `int` that the cast `(int)` leaves.
unfoldable pub bitmap_test : Bitmap → ℕ → ℕ
bitmap_test bitmap index = bit_and (word_of bitmap index) (bit_of index) % 2 ^ 32

-- `BITMAP_CONST(w)`: the words that the initialiser does not name are 0.
abbrev pub bitmap_const : ℕ → Bitmap
bitmap_const w = record { words = w ∷ replicate (word_count - 1) 0 }

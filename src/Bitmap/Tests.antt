-- ===== src/Bitmap/Tests.antt =====
-- Runs of the bitmap, and its theorems at concrete bits.
use secure_mavlink_gateway.Prelude.{◌≡◌, refl, true, false, arith, truthy, not, ◌&&◌, ◌||◌}
use secure_mavlink_gateway.Bitmap.{
  Bitmap, bitmap_const, bitmap_set, bitmap_unset, bitmap_toggle, bitmap_clear, bitmap_test,
}
use secure_mavlink_gateway.Bitmap.Laws.{bitmap_test_after}

-- Sinks 1 and 3.
abbrev row : Bitmap
row = bitmap_const 0xa

test_row : (bitmap_test row 3 ≡ 8) × (bitmap_test row 2 ≡ 0)
unfolding bitmap_test
test_row = (refl, refl)

bitmap_test_after_example :
    (truthy (bitmap_test (bitmap_set row 2) 2) ≡ (true || truthy (bitmap_test row 2)))
    × (truthy (bitmap_test (bitmap_unset row 2) 2) ≡ (false && truthy (bitmap_test row 2)))
    × (truthy (bitmap_test (bitmap_toggle row 2) 2) ≡ not (truthy (bitmap_test row 2)))
    × (truthy (bitmap_test (bitmap_clear row) 2) ≡ false)
bitmap_test_after_example = bitmap_test_after row 2 2 refl (omega arith) (omega arith)

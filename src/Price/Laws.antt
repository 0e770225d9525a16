-- ===== src/Price/Laws.antt =====
-- The price ticks of header/lob_struct.h on float bit patterns.
use trade_engine.Prelude.{◌≡◌, refl, none, some}
use trade_engine.Price.{tick, float_of_size}

-- 110.0f, 110.3f, 149.9f and -1.0f.
tick_tests :
    (tick 0x42dc0000 ≡ some 1100)
    × (tick 0x42dc999a ≡ some 1103)
    × (tick 0x4315e666 ≡ some 1499)
    × (tick 0xbf800000 ≡ none)
unfolding tick
tick_tests = (refl, refl, refl, refl)

float_tests :
    (float_of_size 1103 ≡ 0x4489e000)
    × (float_of_size 0 ≡ 0)
    × (float_of_size 16777217 ≡ 0x4b800000)
unfolding float_of_size
float_tests = (refl, refl, refl)

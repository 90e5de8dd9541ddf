-- ===== src/Examples/Device.antt =====
-- The interval timer of arch/x86_64/pit.rs for the 50 ms that the calibration uses, and f32 numbers.
use chick.Common.{ℕ, ◌/◌, ◌%◌, ◌^◌, ◌≡◌, refl, ◌∷◌, [], leb, if◌then◌else◌, arith}
use chick.Common.Outcome.{done}
use chick.Device.{Bus, out8}
use chick.Device.Pit.{Pit, new, read_count, frequence_hz}
use chick.Device.Pit.Laws.{read_count-new, answering}
use chick.Percore.{Undefined}
use chick.Tick.Float.{to_f32}

abbrev silent : Bus
silent = record { log = []; answers = λ i. 0 }

read_count-new_example :
    (pit : Pit) × (low : ℕ) × (high : ℕ) × (new {E = Undefined} 50 silent
      ≡ done
          (pit, record silent { log = out8 0x40 high ∷ (out8 0x40 low ∷ (out8 0x43 0x30 ∷ [])) }))
    × ((read_count pit (answering low high silent)).0
        ≡ (if leb 50 52 then frequence_hz / (1000 / 50) else frequence_hz / (1000 / 50) % 2 ^ 16))
read_count-new_example = read_count-new Undefined 50 silent silent (omega arith) (omega arith)

-- The last bit of 20000001 is lost, and to even: 20000003 becomes 20000004.
rounded : (to_f32 20000001 ≡ 20000000) × (to_f32 20000003 ≡ 20000004)
unfolding to_f32
rounded = (refl, refl)

-- ===== src/Device/Pic.antt =====
-- kernel/src/arch/x86_64/pic.rs.
use chick.Common.{ℕ}
use chick.Device.{Bus, out8, write}

abbrev pub pic_1_port : ℕ
pic_1_port = 0x21

abbrev pub pic_2_port : ℕ
pic_2_port = 0xa1

pub record Pic : Type 0 where
  pub pic1 : ℕ
  pub pic2 : ℕ

abbrev pub new : Pic
new = record { pic1 = pic_1_port; pic2 = pic_2_port }

unfoldable pub disable : Pic → Bus → Bus
unfolding write
disable p bus = write (out8 p.pic2 0xff) (write (out8 p.pic1 0xff) bus)

-- ===== src/Pic/Tests.antt =====
-- Two concrete controllers, and runs of pic.c on them.
use rtc_driver.Base.{ℕ, ◌≡◌, refl, arith, ◌||◌, ◌==◌, if◌then◌else◌}
use rtc_driver.Cpu.{Ports}
use rtc_driver.Pic.{pic_mask_dev}
use rtc_driver.Pic.Chips.{Chip, Chips, IsPics, Ready, command, data_byte, masked}
use rtc_driver.Pic.Mask.{pic_mask_dev_lem}

abbrev out : ℕ → ℕ → Chips → Chips
out port v c =
    if port == 0x20
    then record c { master = command v c.master }
    else if port == 0xa0
    then record c { slave = command v c.slave }
    else if port == 0x21
    then record c { master = data_byte v c.master }
    else if port == 0xa1
    then record c { slave = data_byte v c.slave }
    else c

abbrev pic_ports : Ports Chips
pic_ports = record {
  inb = λ port c. (if port == 0x21 then c.master.mask else c.slave.mask, c);
  outb = out;
  cli = λ c. c;
  sti = λ c. c;
}

chips-IsPics : IsPics pic_ports (λ c. c)
chips-IsPics = record {
  out20 = λ v c. refl;
  outa0 = λ v c. refl;
  out21 = λ v c. refl;
  outa1 = λ v c. refl;
  in21 = λ c. refl;
  ina1 = λ c. refl;
  in21-view = λ c. refl;
  ina1-view = λ c. refl;
}

abbrev idle : Chip
idle = record { mask = 0x40; vector = 8; cascade = 0; mode = 1; pending = 0 }

abbrev chips : Chips
chips = record { master = idle; slave = idle }

chips-Ready : Ready chips
chips-Ready = record {
  master_done = refl;
  slave_done = refl;
  master_byte = omega arith;
  slave_byte = omega arith;
}

pic_mask_example :
    (masked (pic_mask_dev pic_ports 0x21 chips) 0x21 ≡ ((0x21 == 0x21) || masked chips 0x21))
    × Ready (pic_mask_dev pic_ports 0x21 chips)
pic_mask_example =
    pic_mask_dev_lem pic_ports (λ c. c) chips-IsPics 0x21 0x21 chips chips-Ready
      (omega arith, omega arith) (omega arith, omega arith)

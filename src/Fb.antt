-- ===== src/Fb.antt =====
-- src/kernel/drivers/fb.c and src/kernel/include/fb.h: the driver of the VGA text screen. `vram i`
-- is the byte at `fb_base_addr + i`; the other globals are `pos`, `cur` and `col`. A string is the
-- memory from its address on. A loop recurs on the rounds that are left. `fb_printf` is not part
-- of this model.
pub mod Cells
pub mod Colors
mod Tests
use rtc_driver.Base.{
  ℕ, zero, suc, ◌+◌, ◌-◌, ◌*◌, ◌/◌, ◌%◌, ◌^◌, ◌&&◌, bit_and, bit_or, ltb, ◌==◌, if◌then◌else◌,
}
use rtc_driver.Cpu.{Ports}

abbrev pub crt_addr_port : ℕ
crt_addr_port = 0x03d4

abbrev pub crt_data_port : ℕ
crt_data_port = 0x03d5

abbrev pub cursor_high_register : ℕ
cursor_high_register = 0x0e

abbrev pub cursor_low_register : ℕ
cursor_low_register = 0x0f

abbrev pub fb_cols : ℕ
fb_cols = 80

abbrev pub fb_rows : ℕ
fb_rows = 25

abbrev pub white : ℕ
white = 15

abbrev pub black : ℕ
black = 0

pub record Fb (M : Type 0) : Type 0 where
  pub pos : ℕ
  pub cur : ℕ
  pub col : ℕ
  pub vram : ℕ → ℕ
  pub machine : M

unfoldable pub pack_colors : ℕ → ℕ → ℕ
pack_colors fg bg = bit_or (bit_and fg 0x0f) (bg * 2 ^ 4) % 256

unfoldable pub bg_color : ℕ → ℕ
bg_color pc = pc / 2 ^ 4

unfoldable pub fg_color : ℕ → ℕ
fg_color pc = bit_and pc 0x0f

unfoldable pub coords : ℕ → ℕ → ℕ
coords r c = (r * fb_cols + c) % 2 ^ 16

unfoldable pub row : ℕ → ℕ
row coord = coord / fb_cols % 256

unfoldable pub column : ℕ → ℕ
column coord = coord % fb_cols % 256

-- `vram[i] = b`
unfoldable pub poke : (ℕ → ℕ) → ℕ → ℕ → ℕ → ℕ
poke v i b j = if j == i then b else v j

module _ {M : Type 0} (io : Ports M) where
  unfoldable pub fb_reset : Fb M → Fb M
  unfolding coords pack_colors
  fb_reset s = record s { pos = coords 0 0; cur = coords 0 0; col = pack_colors white black }

  unfoldable pub fb_fg_color : Fb M → ℕ
  unfolding fg_color
  fb_fg_color s = fg_color s.col

  unfoldable pub fb_set_fg_color : ℕ → Fb M → Fb M
  unfolding bg_color pack_colors
  fb_set_fg_color fg s =
      if ltb white fg then s else record s { col = pack_colors fg (bg_color s.col) }

  unfoldable pub fb_bg_color : Fb M → ℕ
  unfolding bg_color
  fb_bg_color s = bg_color s.col

  unfoldable pub fb_set_bg_color : ℕ → Fb M → Fb M
  unfolding fg_color pack_colors
  fb_set_bg_color bg s =
      if ltb white bg then s else record s { col = pack_colors (fg_color s.col) bg }

  unfoldable pub fb_row : Fb M → ℕ
  unfolding row
  fb_row s = row s.pos

  unfoldable pub fb_col : Fb M → ℕ
  unfolding column
  fb_col s = column s.pos

  unfoldable pub fb_set_pos : ℕ → ℕ → Fb M → Fb M
  unfolding coords
  fb_set_pos r c s = if ltb r fb_rows && ltb c fb_cols then record s { pos = coords r c } else s

  unfoldable pub fb_cur_row : Fb M → ℕ
  unfolding row
  fb_cur_row s = row s.cur

  unfoldable pub fb_cur_col : Fb M → ℕ
  unfolding column
  fb_cur_col s = column s.cur

  -- The four writes that move the cursor of the screen.
  unfoldable pub send_cur : ℕ → M → M
  send_cur c m =
      let m1 = io.outb crt_addr_port cursor_high_register m in
      let m2 = io.outb crt_data_port (c / 2 ^ 8 % 256) m1 in
      let m3 = io.outb crt_addr_port cursor_low_register m2 in io.outb crt_data_port (c % 256) m3

  unfoldable pub fb_set_cur : ℕ → ℕ → Fb M → Fb M
  unfolding coords send_cur
  fb_set_cur r c s =
      if ltb r fb_rows && ltb c fb_cols
      then record s { cur = coords r c; machine = send_cur (coords r c) s.machine }
      else s

  unfoldable pub fb_sync_cur : Fb M → Fb M
  unfolding fb_set_cur fb_row fb_col
  fb_sync_cur s = fb_set_cur (fb_row s) (fb_col s) s

  -- A character with the current colors in the cell at `pos`.
  unfoldable pub put_char : ℕ → Fb M → Fb M
  unfolding poke
  put_char b s = record s { vram = poke (poke s.vram (s.pos * 2) b) (s.pos * 2 + 1) s.col }

  -- `n` is `len - i`.
  unfoldable pub write_loop : ℕ → (ℕ → ℕ) → ℕ → Fb M → Fb M
  unfolding put_char
  write_loop zero str i s = s
  write_loop (suc n) str i s =
      let s' = put_char (str i) s in
      let rest =
        write_loop n str (i + 1) (record s' { pos = (s'.pos + 1) % (fb_cols * fb_rows) }) in
      if str i == 0 then s else rest

  unfoldable pub fb_write : (ℕ → ℕ) → ℕ → Fb M → Fb M
  unfolding write_loop
  fb_write str len s = write_loop len str 0 s

  -- `n` is the number of cells from `pos` on.
  unfoldable pub clear_loop : ℕ → Fb M → Fb M
  unfolding put_char
  clear_loop zero s = s
  clear_loop (suc n) s = let s' = put_char 0x20 s in clear_loop n (record s' { pos = s'.pos + 1 })

  unfoldable pub fb_clear : Fb M → Fb M
  fb_clear s =
      fb_set_cur 0 0 (fb_set_pos 0 0 (clear_loop (fb_cols * fb_rows) (record s { pos = 0 })))

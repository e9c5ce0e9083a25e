-- ===== src/Rtc/Cmos.antt =====
-- The chip behind ports 0x70 and 0x71 between two ticks of its clock, as the data sheet has it: a
-- write to the address port selects a register (bit 7 is the NMI mask), the data port reads or
-- writes the selected register, and nothing else changes a register. `sel` is the selected
-- register and `reg` the contents. The functions of rtc.c are stated over these laws.
use rtc_driver.Base.{
  ℕ, ◌+◌, ◌%◌, ◌<◌, ◌≡◌, refl, ap, ◌∙◌, fun_ext, List, [], ◌∷◌, map, some, arith, bit_and, ◌==◌,
  if◌then◌else◌, get_elem?, length,
}
use rtc_driver.Base.Run.{ok}
use rtc_driver.Cpu.{Ports}
use rtc_driver.Rtc.{
  get_rtc_register, set_rtc_register, get_update_in_progress_flag, read_loop, write_loop,
}

-- A register file with one register written.
abbrev pub update : (ℕ → ℕ) → ℕ → ℕ → ℕ → ℕ
update f r v q = if q == r then v else f q

pub record IsCmos {M : Type 0} (io : Ports M) (sel : M → ℕ) (reg : M → ℕ → ℕ) : Type 0 where
  pub select : (v : ℕ) (m : M) → sel (io.outb 0x70 v m) ≡ v % 128
  pub select-reg : (v : ℕ) (m : M) (q : ℕ) → reg (io.outb 0x70 v m) q ≡ reg m q
  pub read : (m : M) → (io.inb 0x71 m).0 ≡ reg m (sel m)
  pub read-reg : (m : M) (q : ℕ) → reg (io.inb 0x71 m).1 q ≡ reg m q
  pub write-reg : (v : ℕ) (m : M) (q : ℕ) → reg (io.outb 0x71 v m) q ≡ update (reg m) (sel m) v q
  pub cli-reg : (m : M) (q : ℕ) → reg (io.cli m) q ≡ reg m q
  pub sti-reg : (m : M) (q : ℕ) → reg (io.sti m) q ≡ reg m q

-- From index `i` on, `regs` holds `rs`, all of them register numbers.
abbrev pub Slice : List ℕ → ℕ → List ℕ → Type 0
Slice regs i [] = Unit
Slice regs i (r ∷ rs) = (get_elem? regs i ≡ some r) × (r < 128) × Slice regs (i + 1) rs

-- Register `r` of each pair is given the byte, in order.
abbrev pub store_all : (ℕ → ℕ) → List (ℕ × ℕ) → ℕ → ℕ
store_all f [] = f
store_all f ((r, b) ∷ ws) = store_all (update f r b) ws

-- From index `i` on, `regs` and `buf` hold the pairs.
abbrev pub Slices : List ℕ → List ℕ → ℕ → List (ℕ × ℕ) → Type 0
Slices regs buf i [] = Unit
Slices regs buf i ((r, b) ∷ ws) =
    (get_elem? regs i ≡ some r)
    × (get_elem? buf i ≡ some b)
    × (r < 128)
    × Slices regs buf (i + 1) ws

module _ {M : Type 0} (io : Ports M) (sel : M → ℕ) (reg : M → ℕ → ℕ)
    (cmos : IsCmos io sel reg) where
  selected : (r : ℕ) (m : M) → r < 128 → sel (io.outb 0x70 r m) ≡ r
  selected r m h = cmos.select r m ∙ omega arith

  -- Reading a register gives its contents and changes none.
  pub get_rtc_register_lem : (r : ℕ) (m : M) → r < 128 → (get_rtc_register io r m).0 ≡ reg m r
  unfolding get_rtc_register
  get_rtc_register_lem r m h =
      cmos.read (io.outb 0x70 r m) ∙ rw (selected r m h) (cmos.select-reg r m r)

  pub get_rtc_register-reg : (r : ℕ) (m : M) → reg (get_rtc_register io r m).1 ≡ reg m
  unfolding get_rtc_register
  get_rtc_register-reg r m = fun_ext λ q. cmos.read-reg (io.outb 0x70 r m) q ∙ cmos.select-reg r m q

  pub set_rtc_register-reg :
      (r v : ℕ) (m : M) → r < 128 → reg (set_rtc_register io r v m) ≡ update (reg m) r v
  unfolding set_rtc_register
  set_rtc_register-reg r v m h = fun_ext λ q.
      cmos.write-reg v (io.outb 0x70 r m) q
      ∙ rw (selected r m h) (ap (λ f. update f r v q) (fun_ext λ x. cmos.select-reg r m x))

  pub get_update_in_progress_flag_lem :
      (m : M)
      → ((get_update_in_progress_flag io m).0 ≡ bit_and (reg m 0x0A) 0x80)
        × (reg (get_update_in_progress_flag io m).1 ≡ reg m)
  unfolding get_update_in_progress_flag
  get_update_in_progress_flag_lem m = (
    ap (λ v. bit_and v 0x80)
        (cmos.read _ ∙ rw (selected 0x0A m (omega arith)) (cmos.select-reg _ m _)),
    fun_ext λ q. cmos.read-reg (io.outb 0x70 0x0A m) q ∙ cmos.select-reg 0x0A m q,
  )

  pub read_loop_lem :
      (regs rs : List ℕ) (i : ℕ) (m : M)
      → Slice regs i rs
      → (m' : M) × (read_loop io regs (length rs) i m ≡ ok (map (reg m) rs) m') × (reg m' ≡ reg m)
  unfolding read_loop
  read_loop_lem regs [] i m h = (m, refl, refl)
  read_loop_lem regs (r ∷ rs) i m h =
      let m1 = (get_rtc_register io r m).1 in
      let (m', e, k) = read_loop_lem regs rs (i + 1) m1 h.2 in
      let same : reg m1 ≡ reg m = get_rtc_register-reg r m in
      (
        m',
        rw (h.0, read_loop)
            (rw (e, get_rtc_register_lem r m h.1) (ap (λ f. ok (reg m r ∷ map f rs) m') same)),
        k ∙ same,
      )

  pub write_loop_lem :
      (regs buf : List ℕ) (ws : List (ℕ × ℕ)) (i : ℕ) (m : M)
      → Slices regs buf i ws
      → (m' : M) × (write_loop io regs buf (length ws) i m ≡ ok tt m')
        × (reg m' ≡ store_all (reg m) ws)
  unfolding write_loop
  write_loop_lem regs buf [] i m h = (m, refl, refl)
  write_loop_lem regs buf ((r, b) ∷ ws) i m h =
      let m1 = set_rtc_register io r b m in
      let (m', e, k) = write_loop_lem regs buf ws (i + 1) m1 h.3 in
      (
        m',
        rw (h.0, write_loop) (rw h.1 e),
        k ∙ ap (λ f. store_all f ws) (set_rtc_register-reg r b m h.2),
      )

-- ===== src/Fb/Cells.antt =====
-- What the screen shows.
use rtc_driver.Base.{
  ℕ, zero, suc, ◌+◌, ◌-◌, ◌*◌, ◌%◌, ◌≤◌, ◌<◌, ◌≡◌, ◌≢◌, refl, sym, ap, ◌∙◌, true, false, inl, inr,
  Bool-cases, arith, ltb, leb, ◌==◌, if◌then◌else◌,
}
use rtc_driver.Cpu.{Ports}
use rtc_driver.Fb.{
  Fb, poke, put_char, write_loop, fb_write, clear_loop, fb_clear, fb_set_pos, fb_set_cur, coords,
}

-- The character and the colors of a cell.
unfoldable pub char_at : {M : Type 0} → Fb M → ℕ → ℕ
char_at s c = s.vram (c * 2)

unfoldable pub attr_at : {M : Type 0} → Fb M → ℕ → ℕ
attr_at s c = s.vram (c * 2 + 1)

-- How far cell `c` lies behind `pos`, around the screen.
abbrev pub behind : ℕ → ℕ → ℕ
behind c pos = (c + 2000 - pos) % 2000

abbrev pub after : ℕ → ℕ
after pos = (pos + 1) % 2000

-- `p` characters are shown of a string of which at most `n` are asked for.
pub record Shown (str : ℕ → ℕ) (i n p : ℕ) : Type 0 where
  pub most : p ≤ n
  pub chars : (k : ℕ) → k < p → str (i + k) ≢ 0
  pub stop : p < n → str (i + p) ≡ 0

at_pos : (c pos : ℕ) → pos < 2000 → c ≡ pos → (behind c pos ≡ 0) × (behind c (after pos) ≡ 1999)
at_pos c pos h e = (omega arith, omega arith)

behind-after :
    (c pos : ℕ) → c < 2000 → pos < 2000 → c ≢ pos → behind c (after pos) + 1 ≡ behind c pos
behind-after c pos hc hp ne = omega arith

-- The string read at an index that is written in another way.
move : (str : ℕ → ℕ) {a b : ℕ} → a ≡ b → str a ≡ str b
move str e = ap str e

Shown-zero : (str : ℕ → ℕ) (i n p : ℕ) → str i ≡ 0 → Shown str i n p → p ≡ 0
Shown-zero str i n zero e shown = refl
Shown-zero str i n (suc p) e shown =
    absurd (shown.chars 0 (omega arith) (move str (omega arith) ∙ e))

Shown-pos : (str : ℕ → ℕ) (i n p : ℕ) → str i ≢ 0 → Shown str i (suc n) p → 0 < p
Shown-pos str i n zero ne shown = absurd (ne (move str (omega arith) ∙ shown.stop (omega arith)))
Shown-pos str i n (suc p) ne shown = omega arith

Shown-suc : (str : ℕ → ℕ) (i n p : ℕ) → Shown str i (suc n) p → 0 < p → Shown str (i + 1) n (p - 1)
Shown-suc str i n p shown h = record {
  most = omega (arith, shown.most);
  chars = λ k lt e. shown.chars (k + 1) (omega arith) (move str (omega arith) ∙ e);
  stop = λ lt. move str (omega arith) ∙ shown.stop (omega arith);
}

-- What a cell holds after a first write at `pos` and a run of the others behind it.
join :
    (c pos p old one mid : ℕ) (tail whole : ℕ → ℕ)
    → c < 2000
    → pos < 2000
    → 0 < p
    → p ≤ 2000
    → whole 0 ≡ one
    → ((d : ℕ) → whole (d + 1) ≡ tail d)
    → mid ≡ (if c == pos then one else old)
    → (if ltb (behind c (after pos)) (p - 1) then tail (behind c (after pos)) else mid)
      ≡ (if ltb (behind c pos) p then whole (behind c pos) else old)
join c pos p old one mid tail whole hc hp some_p most h0 hs e = elim (Bool-cases (c == pos)) [
  | inl here ↦
      let same : c ≡ pos = ground arith in
      let (near, far) = at_pos c pos hp same in
      let no : ltb (behind c (after pos)) (p - 1) ≡ false = ground arith in
      let yes_p : ltb (behind c pos) p ≡ true = ground arith in
      rw no (rw yes_p (e ∙ rw here (sym h0 ∙ ap whole (sym near))))
  | inr other ↦
      let d = behind-after c pos hc hp (ground arith) in
      let both : ltb (behind c (after pos)) (p - 1) ≡ ltb (behind c pos) p = ground arith in
      rw both (elim (Bool-cases (ltb (behind c pos) p)) [
        | inl in_run ↦ rw in_run (sym (hs (behind c (after pos))) ∙ ap whole d)
        | inr out ↦ rw out (e ∙ rw other refl)
      ])
]

join_clear :
    (c pos old one mid : ℕ)
    → mid ≡ (if c == pos then one else old)
    → (if leb (pos + 1) c then one else mid) ≡ (if leb pos c then one else old)
join_clear c pos old one mid e = ground arith

module _ {M : Type 0} (io : Ports M) where
  put-char_at :
      (b c : ℕ) (s : Fb M) → char_at (put_char io b s) c ≡ (if c == s.pos then b else char_at s c)
  unfolding put_char poke char_at
  put-char_at b c s = ground arith

  put-attr_at :
      (b c : ℕ) (s : Fb M)
      → attr_at (put_char io b s) c ≡ (if c == s.pos then s.col else attr_at s c)
  unfolding put_char poke attr_at
  put-attr_at b c s = ground arith

  -- What a run of `p` characters from `str i` on leaves on the screen.
  pub record Written (str : ℕ → ℕ) (i p : ℕ) (s s' : Fb M) : Type 0 where
    pub chars :
        (c : ℕ)
        → c < 2000
        → char_at s' c ≡ (if ltb (behind c s.pos) p then str (i + behind c s.pos) else char_at s c)
    pub attrs :
        (c : ℕ) → c < 2000 → attr_at s' c ≡ (if ltb (behind c s.pos) p then s.col else attr_at s c)
    pub pos : s'.pos ≡ (s.pos + p) % 2000

  nothing : (str : ℕ → ℕ) (i : ℕ) (s : Fb M) → s.pos < 2000 → Written str i 0 s s
  nothing str i s small = record {
    chars = λ c h. ground arith;
    attrs = λ c h. ground arith;
    pos = omega arith;
  }

  step :
      (str : ℕ → ℕ) (i p : ℕ) (s r : Fb M)
      → s.pos < 2000
      → 0 < p
      → p ≤ 2000
      → Written str (i + 1) (p - 1) (record (put_char io (str i) s) { pos = after s.pos }) r
      → Written str i p s r
  unfolding put_char char_at attr_at
  step str i p s r small some_char most w = record {
    chars = λ c h.
        w.chars c h
        ∙ join c s.pos p (char_at s c) (str i) (char_at (put_char io (str i) s) c)
            (λ d. str (i + 1 + d)) (λ d. str (i + d)) h small some_char most
            (move str (omega arith)) (λ d. move str (omega arith)) (put-char_at (str i) c s);
    attrs = λ c h.
        w.attrs c h
        ∙ join c s.pos p (attr_at s c) s.col (attr_at (put_char io (str i) s) c) (λ d. s.col)
            (λ d. s.col) h small some_char most refl (λ d. refl) (put-attr_at (str i) c s);
    pos = omega (arith, w.pos);
  }

  write_loop_lem :
      (n : ℕ) (str : ℕ → ℕ) (i p : ℕ) (s : Fb M)
      → s.pos < 2000
      → p ≤ 2000
      → Shown str i n p
      → Written str i p s (write_loop io n str i s)
  unfolding write_loop
  write_loop_lem zero str i zero s small most shown = nothing str i s small
  write_loop_lem zero str i (suc p) s small most shown = absurd (omega (arith, shown.most))
  write_loop_lem (suc n) str i p s small most shown = elim (Bool-cases (str i == 0)) [
    | inl end ↦
        rw end (rw (Shown-zero str i (suc n) p (ground arith) shown) (nothing str i s small))
    | inr more ↦ rw more (
        let some_char = Shown-pos str i n p (ground arith) shown in
        step str i p s _ small some_char most (
          write_loop_lem n str (i + 1) (p - 1) _ (omega arith) (omega arith)
            (Shown-suc str i n p shown some_char)))
  ]

  -- From a position on the screen, a string of which `p` characters are to be shown (as many as
  -- asked for, or up to its null), no more than the screen has cells, goes into the `p` cells
  -- from the position on, around the end of the screen, in the current colors; every other cell
  -- keeps what it shows, and the position moves behind the string.
  pub fb_write_lem :
      (str : ℕ → ℕ) (len p : ℕ) (s : Fb M)
      → s.pos < 2000
      → p ≤ 2000
      → Shown str 0 len p
      → Written str 0 p s (fb_write io str len s)
  unfolding fb_write
  fb_write_lem str len p s small most shown = write_loop_lem len str 0 p s small most shown

  clear_loop_lem :
      (n c : ℕ) (s : Fb M)
      → s.pos + n ≡ 2000
      → c < 2000
      → (char_at (clear_loop io n s) c ≡ (if leb s.pos c then 0x20 else char_at s c))
        × (attr_at (clear_loop io n s) c ≡ (if leb s.pos c then s.col else attr_at s c))
  unfolding clear_loop put_char char_at attr_at
  clear_loop_lem zero c s end h =
      let full : leb s.pos c ≡ false = ground arith in rw full (refl, refl)
  clear_loop_lem (suc n) c s end h =
      let (chars, attrs) =
        clear_loop_lem n c (record (put_char io 0x20 s) { pos = s.pos + 1 }) (omega arith) h in
      (
        chars ∙ join_clear c s.pos _ 0x20 _ (put-char_at 0x20 c s),
        attrs ∙ join_clear c s.pos _ s.col _ (put-attr_at 0x20 c s),
      )

  home :
      (s : Fb M)
      → ((c : ℕ) → char_at (fb_set_cur io 0 0 (fb_set_pos io 0 0 s)) c ≡ char_at s c)
        × ((c : ℕ) → attr_at (fb_set_cur io 0 0 (fb_set_pos io 0 0 s)) c ≡ attr_at s c)
        × ((fb_set_cur io 0 0 (fb_set_pos io 0 0 s)).pos ≡ 0)
        × ((fb_set_cur io 0 0 (fb_set_pos io 0 0 s)).cur ≡ 0)
  unfolding char_at attr_at fb_set_pos fb_set_cur coords
  home s = (λ c. refl, λ c. refl, refl, refl)

  -- `fb_clear` blanks every cell `c` of the screen, in the current colors, and moves the position
  -- and the cursor to the top left corner.
  pub fb_clear_lem :
      (s : Fb M) (c : ℕ)
      → c < 2000
      → (char_at (fb_clear io s) c ≡ 0x20)
        × (attr_at (fb_clear io s) c ≡ s.col)
        × ((fb_clear io s).pos ≡ 0)
        × ((fb_clear io s).cur ≡ 0)
  unfolding fb_clear
  fb_clear_lem s c h =
      let cleared = clear_loop io 2000 (record s { pos = 0 }) in
      let (chars, attrs, p, q) = home cleared in
      let (a, b) = clear_loop_lem 2000 c (record s { pos = 0 }) refl h in
      let all : leb 0 c ≡ true = ground arith in
      (chars c ∙ a ∙ rw all refl, attrs c ∙ b ∙ rw all refl, p, q)

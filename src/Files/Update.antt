-- ===== src/Files/Update.antt =====
-- A store of structures by address: what is written is read, and the others are as they were.
use rtc_driver.Base.{
  ℕ, ◌≡◌, ◌≢◌, ◌∙◌, ap, refl, arith, fun_ext, Bool-cases, inl, inr, ◌==◌, true, false,
}
use rtc_driver.Files.{update}

module _ {A : Type 0} (f : ℕ → A) (p : ℕ) (v : A) where
  pub update_self : update f p v p ≡ v
  unfolding update
  update_self = let e : (p == p) ≡ true = ground arith in rw e refl

  pub update-ne : (q : ℕ) → q ≢ p → update f p v q ≡ f q
  unfolding update
  update-ne q ne = let e : (q == p) ≡ false = ground arith in rw e refl

pub update-update :
    {A : Type 0} (f : ℕ → A) (p : ℕ) (v w : A) → update (update f p v) p w ≡ update f p w
unfolding update
update-update f p v w =
    fun_ext
      (λ q. elim (Bool-cases (q == p)) [ inl same ↦ rw same refl | inr other ↦ rw other refl ])

-- A structure that has been written is changed by what it was written to.
pub update-again :
    {A : Type 0} (f : ℕ → A) (p : ℕ) (v : A) (g : A → A)
    → update (update f p v) p (g (update f p v p)) ≡ update f p (g v)
update-again f p v g =
    ap (λ w. update (update f p v) p (g w)) (update_self f p v) ∙ update-update f p v (g v)

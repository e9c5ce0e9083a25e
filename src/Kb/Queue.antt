-- ===== src/Kb/Queue.antt =====
-- The ring as a queue.
use rtc_driver.Base.{
  get_or-set_self, get_or-set_ne, ℕ, zero, suc, ◌+◌, ◌%◌, ◌≤◌, ◌<◌, ◌≡◌, ◌≢◌, refl, sym, ap, ◌∙◌,
  List, [], ◌∷◌, ◌++◌, arith, get_or, set, length, length-set,
}
use rtc_driver.Kb.{Ring, push, push_all}

-- The `n` bytes from index `h` on, around the end of the ring.
unfoldable pub contents : ℕ → ℕ → List ℕ → List ℕ
contents zero h buf = []
contents (suc n) h buf = get_or buf h 0 ∷ contents n ((h + 1) % 32) buf

unfoldable pub queue : Ring → List ℕ
queue r = contents r.count r.head r.buffer

pub record IsRing (r : Ring) : Type 0 where
  pub size : length r.buffer ≡ 32
  pub head : r.head < 32
  pub count : r.count ≤ 32

apart : (h n : ℕ) → h < 32 → suc n < 32 → (h + suc n) % 32 ≢ h
apart h n hh hn e = omega arith

around : (h n : ℕ) → (h + suc n) % 32 ≡ ((h + 1) % 32 + n) % 32
around h n = omega arith

append-nil : (xs : List ℕ) → xs ++ [] ≡ xs
append-nil [] = refl
append-nil (x ∷ xs) = ap (λ t. x ∷ t) (append-nil xs)

append-one : (xs : List ℕ) (b : ℕ) (zs : List ℕ) → (xs ++ b ∷ []) ++ zs ≡ xs ++ (b ∷ zs)
append-one [] b zs = refl
append-one (x ∷ xs) b zs = ap (λ t. x ∷ t) (append-one xs b zs)

push-room : (b n : ℕ) (r : Ring) → r.count + suc n ≤ 32 → (push b r).count + n ≤ 32
unfolding push
push-room b n r room = omega arith

-- A byte written behind the contents becomes their last.
contents-push :
    (n h b : ℕ) (buf : List ℕ)
    → length buf ≡ 32
    → h < 32
    → n < 32
    → contents (suc n) h (set buf ((h + n) % 32) b) ≡ contents n h buf ++ b ∷ []
unfolding contents
contents-push zero h b buf size hh hn =
    ap (λ x. x ∷ [])
      (ap (λ p. get_or (set buf p b) h 0) (omega arith)
        ∙ get_or-set_self buf h b 0 (omega (arith, size)))
contents-push (suc n) h b buf size hh hn =
    let same : get_or (set buf ((h + suc n) % 32) b) h 0 ≡ get_or buf h 0 =
      get_or-set_ne buf ((h + suc n) % 32) h b 0 (λ e. apart h n hh hn e) in
    ap (λ x. x ∷ contents (suc n) ((h + 1) % 32) (set buf ((h + suc n) % 32) b)) same
    ∙ ap (λ xs. get_or buf h 0 ∷ xs)
        (ap (λ p. contents (suc n) ((h + 1) % 32) (set buf p b)) (around h n)
          ∙ contents-push n ((h + 1) % 32) b buf size (omega arith) (omega arith))

-- A push on a ring with room appends the byte.
queue-push :
    (b : ℕ) (r : Ring)
    → IsRing r
    → r.count < 32
    → (queue (push b r) ≡ queue r ++ b ∷ []) × IsRing (push b r)
unfolding queue push
queue-push b r ring room = (
  ap (λ n. contents n r.head (set r.buffer ((r.head + r.count) % 32) b)) (omega arith)
      ∙ contents-push r.count r.head b r.buffer ring.size ring.head room,
  record {
    size = length-set r.buffer _ b ∙ ring.size;
    head = ring.head;
    count = omega (arith, room);
  },
)

-- The `n` bytes from index `i` on.
unfoldable pub slice : ℕ → List ℕ → ℕ → List ℕ
slice zero bytes i = []
slice (suc n) bytes i = get_or bytes i 0 ∷ slice n bytes (i + 1)

-- A run of pushes appends the bytes in order.
pub queue-push_all :
    (n : ℕ) (bytes : List ℕ) (i : ℕ) (r : Ring)
    → IsRing r
    → r.count + n ≤ 32
    → (queue (push_all n bytes i r) ≡ queue r ++ slice n bytes i) × IsRing (push_all n bytes i r)
unfolding push_all slice
queue-push_all zero bytes i r ring room = (sym (append-nil (queue r)), ring)
queue-push_all (suc n) bytes i r ring room =
    let b = get_or bytes i 0 in
    let (one, ring') = queue-push b r ring (omega arith) in
    let (rest, ring'') = queue-push_all n bytes (i + 1) (push b r) ring' (push-room b n r room) in
    (
      rest
          ∙ ap (λ q. q ++ slice n bytes (i + 1)) one
          ∙ append-one (queue r) b (slice n bytes (i + 1)),
      ring'',
    )

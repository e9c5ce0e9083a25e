-- ===== src/Vfs/Paths.antt =====
-- The words of a path are the names that it is made of.
use rtc_driver.Base.{◌≡◌, ◌≢◌, refl, ap, ◌∙◌, false, List, [], ◌∷◌, ◌++◌, arith, ◌==◌}
use rtc_driver.Files.{Name}
use rtc_driver.Vfs.Walk.{slash, add_word, words, components}

-- A path below the root: a slash before each name.
unfoldable pub render : List Name → Name
render [] = []
render (w ∷ ws) = slash ∷ w ++ render ws

abbrev pub NoSlash : Name → Type 0
NoSlash [] = Unit
NoSlash (c ∷ cs) = (c ≢ slash) × NoSlash cs

abbrev pub AreNames : List Name → Type 0
AreNames [] = Unit
AreNames (w ∷ ws) = (w ≢ []) × NoSlash w × AreNames ws

add_word-name : (w : Name) (ws : List Name) → w ≢ [] → add_word w ws ≡ w ∷ ws
unfolding add_word
add_word-name [] ws ne = absurd (ne refl)
add_word-name (c ∷ w) ws ne = refl

words-append :
    (w r : Name) (ws : List Name) → NoSlash w → words r ≡ ([], ws) → words (w ++ r) ≡ (w, ws)
unfolding words
words-append [] r ws h rest = rest
words-append (c ∷ w) r ws h rest =
    let other : (c == slash) ≡ false = ground (arith, h.0) in
    rw other (ap (λ p. (c ∷ p.0, p.1)) (words-append w r ws h.1 rest))

words-render : (ws : List Name) → AreNames ws → words (render ws) ≡ ([], ws)
unfolding words render
words-render [] names = refl
words-render (w ∷ ws) names =
    ap (λ (p : Name × List Name). ([], add_word p.0 p.1))
      (words-append w (render ws) ws names.1 (words-render ws names.2))
    ∙ ap (λ vs. ([], vs)) (add_word-name w ws names.0)

-- The components of a path that is made of names without slashes are the names.
pub components-render : (ws : List Name) → AreNames ws → components (render ws) ≡ ws
unfolding components add_word
components-render ws names = ap (λ p. add_word p.0 p.1) (words-render ws names)

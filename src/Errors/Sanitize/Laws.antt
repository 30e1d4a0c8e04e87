-- ===== src/Errors/Sanitize/Laws.antt =====
-- What `sanitizeUrl` leaves of a message.
use composable_batch_erc.Common.{
  ℕ, [], ◌∷◌, Bool, true, false, ◌≡◌, refl, All, Bool-cases, arith, inl, inr, ap, ◌==◌, ◌||◌, ◌&&◌,
}
use composable_batch_erc.Common.Text.{Text, codes}
use composable_batch_erc.Errors.Sanitize.{
  is_space, matches_then_word, is_url_start, sanitize_from, sanitize_url, has_url,
}

abbrev IsWord : Text → Type 0
IsWord = All (λ c. is_space c ≡ false)

and_mono : (a : Bool) {b c : Bool} → (b ≡ true → c ≡ true) → (a && b) ≡ true → (a && c) ≡ true
and_mono true f h = f h
and_mono false f h = h

or_false : (a b : Bool) → (a || b) ≡ false → (a ≡ false) × (b ≡ false)
or_false a b h = ground arith

matches-space :
    (ps : Text) (c : ℕ) (s : Text)
    → IsWord ps
    → is_space c ≡ true
    → matches_then_word ps (c ∷ s) ≡ false
unfolding matches_then_word
matches-space [] c s w h = rw h
matches-space (p ∷ ps) c s (w, _) h = elim (Bool-cases (c == p)) [
  | inl e ↦ absurd (let q : c ≡ p = ground arith in ground (arith, ap is_space q))
  | inr e ↦ rw e
]

matches-skipped : (ps s : Text) → IsWord ps → matches_then_word ps (sanitize_from true s) ≡ false
unfolding sanitize_from
matches-skipped [] [] w = unfold matches_then_word in refl
matches-skipped (p ∷ ps) [] w = unfold matches_then_word in refl
matches-skipped ps (c ∷ s) w = elim (Bool-cases (is_space c)) [
  | inl e ↦ rw e (matches-space ps c (sanitize_from false s) w e)
  | inr e ↦ rw e (matches-skipped ps s w)
]

-- A match in the copied text was a match in the source.
matches-copied :
    (ps s : Text)
    → IsWord ps
    → matches_then_word ps (sanitize_from false s) ≡ true
    → matches_then_word ps s ≡ true
unfolding sanitize_from matches_then_word
matches-copied ps [] w h = h
matches-copied [] (c ∷ s) w h = elim (Bool-cases (is_url_start (c ∷ s))) [
  | inl e ↦ cc (matches-skipped [] s w, rw e at h)
  | inr e ↦ rw e at h
]
matches-copied (p ∷ ps) (c ∷ s) w h = elim (Bool-cases (is_url_start (c ∷ s))) [
  | inl e ↦ cc (matches-skipped (p ∷ ps) s w, rw e at h)
  | inr e ↦ and_mono (c == p) (matches-copied ps s w.1) (rw e at h)
]

http-IsWord : IsWord (codes "http://")
unfolding is_space
http-IsWord = (refl, (refl, (refl, (refl, (refl, (refl, (refl, tt)))))))

https-IsWord : IsWord (codes "https://")
unfolding is_space
https-IsWord = (refl, (refl, (refl, (refl, (refl, (refl, (refl, (refl, tt))))))))

matches-copied_false :
    (ps : Text) (c : ℕ) (s : Text)
    → IsWord ps
    → is_url_start (c ∷ s) ≡ false
    → matches_then_word ps (c ∷ s) ≡ false
    → matches_then_word ps (c ∷ sanitize_from false s) ≡ false
matches-copied_false ps c s w h k =
    let same : sanitize_from false (c ∷ s) ≡ c ∷ sanitize_from false s =
      unfold sanitize_from in rw h in
    elim (Bool-cases (matches_then_word ps (c ∷ sanitize_from false s))) [
      | inl e ↦ cc (matches-copied ps (c ∷ s) w (rw same e))
      | inr e ↦ e
    ]

is_url_start-false :
    (s : Text)
    → is_url_start s ≡ false
    → (matches_then_word (codes "http://") s ≡ false)
      × (matches_then_word (codes "https://") s ≡ false)
unfolding is_url_start
is_url_start-false s h = or_false _ _ h

is_url_start-copied :
    (c : ℕ) (s : Text)
    → is_url_start (c ∷ s) ≡ false
    → is_url_start (c ∷ sanitize_from false s) ≡ false
is_url_start-copied c s h =
    let (http, https) = is_url_start-false (c ∷ s) h in
    let first = matches-copied_false (codes "http://") c s http-IsWord h http in
    let second = matches-copied_false (codes "https://") c s https-IsWord h https in
    unfold is_url_start in rw (first, second)

is_url_start-space : (c : ℕ) (s : Text) → is_space c ≡ true → is_url_start (c ∷ s) ≡ false
unfolding is_url_start
is_url_start-space c s h = rw (
  matches-space (codes "http://") c s http-IsWord h,
  matches-space (codes "https://") c s https-IsWord h,
)

has_url-sanitize_from : (inside : Bool) (s : Text) → has_url (sanitize_from inside s) ≡ false
unfolding has_url sanitize_from
has_url-sanitize_from true [] = refl
has_url-sanitize_from false [] = refl
has_url-sanitize_from true (c ∷ s) = elim (Bool-cases (is_space c)) [
  | inl e ↦
      rw e (rw (is_url_start-space c (sanitize_from false s) e) (has_url-sanitize_from false s))
  | inr e ↦ rw e (has_url-sanitize_from true s)
]
has_url-sanitize_from false (c ∷ s) = elim (Bool-cases (is_url_start (c ∷ s))) [
  | inl e ↦ rw e (has_url-sanitize_from true s)
  | inr e ↦ rw e (rw (is_url_start-copied c s e) (has_url-sanitize_from false s))
]

-- No URL of an RPC provider is left in a message that was sanitized: no position of the result
-- starts a match of the regular expression.
pub has_url-sanitize_url : (value : Text) → has_url (sanitize_url value) ≡ false
unfolding sanitize_url
has_url-sanitize_url value = has_url-sanitize_from false value

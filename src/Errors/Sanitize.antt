-- ===== src/Errors/Sanitize.antt =====
-- `sanitizeUrl` of orchestrator-node/src/modules/common/utils/sanitize-url.ts: the regular
-- expression /https?:\/\/[^\s]+/g as a scan that copies, or skips up to white space.
pub mod Laws
use composable_batch_erc.Common.{
  ℕ, List, [], ◌∷◌, Bool, true, false, not, ◌&&◌, ◌||◌, ◌≡◌, refl, if◌then◌else◌, leb, ◌==◌,
  Bool-cases, arith, inl, inr,
}
use composable_batch_erc.Common.Text.{Text, codes}

-- `\s`.
unfoldable pub is_space : ℕ → Bool
is_space c =
    leb 9 c && leb c 13
    || c == 32
    || c == 160
    || c == 5760
    || leb 8192 c && leb c 8202
    || c == 8232
    || c == 8233
    || c == 8239
    || c == 8287
    || c == 12288
    || c == 65279

-- The text, and then one character that is no white space.
unfoldable pub matches_then_word : Text → Text → Bool
matches_then_word [] [] = false
matches_then_word [] (c ∷ s) = not (is_space c)
matches_then_word (p ∷ ps) [] = false
matches_then_word (p ∷ ps) (c ∷ s) = c == p && matches_then_word ps s

unfoldable pub is_url_start : Text → Bool
unfolding matches_then_word
is_url_start s = matches_then_word (codes "http://") s || matches_then_word (codes "https://") s

-- The scan; the Boolean tells whether it is inside a match.
unfoldable pub sanitize_from : Bool → Text → Text
sanitize_from inside [] = []
sanitize_from true (c ∷ s) =
    let copied = sanitize_from false s in
    let skipped = sanitize_from true s in if is_space c then c ∷ copied else skipped
sanitize_from false (c ∷ s) =
    let copied = sanitize_from false s in
    let skipped = sanitize_from true s in if is_url_start (c ∷ s) then skipped else c ∷ copied

unfoldable pub sanitize_url : Text → Text
unfolding sanitize_from is_url_start matches_then_word is_space
sanitize_url value = sanitize_from false value

-- Some position of the text starts a match of the regular expression.
unfoldable pub has_url : Text → Bool
has_url [] = false
has_url (c ∷ s) = is_url_start (c ∷ s) || has_url s

-- ===== src/ProcessMonitor/Chunks.antt =====
-- The blocks of a guest's file.
use mathlib.Core.List.{append_assoc, append-nil}
use idsproject.Base.{
  Text, ℕ, zero, suc, ◌≤◌, ℤ, true, false, none, some, List, [], ◌∷◌, ◌++◌, ◌≡◌, ◌∙◌, ap, arith,
  length, ok,
}
use idsproject.Host.{Libvirt, Nlohmann, JsonBuild, Crypto}
use idsproject.ProcessMonitor.{ask_chunk, read_answer, read_chunks}

abbrev pub joined : List Text → Text
joined [] = []
joined (block ∷ rest) = block ++ joined rest

module _ {S Dom J : Type 0} (virt : Libvirt S Dom) (json : Nlohmann J) (build : JsonBuild J)
    (crypto : Crypto) (dom : Dom) (handle : ℤ) where
  -- What the guest's answers deliver: blocks up to the last, or up to an answer that fails to come.
  pub data Delivers : S → List Text → S → Type 0 where
    breaks_off :
        {s s' : S}
        → ask_chunk virt json build crypto dom handle s ≡ (ok none, s')
        → Delivers s [] s'
    ends :
        {s s' : S} {text block : Text}
        → ask_chunk virt json build crypto dom handle s ≡ (ok (some text), s')
        → read_answer virt json build crypto text s' ≡ (ok (block, true), s')
        → Delivers s (block ∷ []) s'
    goes_on :
        {s s' s'' : S} {text block : Text} {rest : List Text}
        → ask_chunk virt json build crypto dom handle s ≡ (ok (some text), s')
        → read_answer virt json build crypto text s' ≡ (ok (block, false), s')
        → Delivers s' rest s''
        → Delivers s (block ∷ rest) s''

  -- The blocks that the guest delivers are read to the end and joined in order, with fuel for one
  -- round more than there are blocks; that an answer failed to come on the way makes no difference, so
  -- a file that breaks off is taken for a whole one.
  pub read_chunks-Delivers :
      (fuel : ℕ) (all_data : Text) {s s' : S} {blocks : List Text}
      → Delivers s blocks s'
      → length blocks ≤ fuel
      → read_chunks virt json build crypto (suc fuel) dom handle all_data s
        ≡ (ok (all_data ++ joined blocks), s')
  unfolding read_chunks
  read_chunks-Delivers fuel all_data (breaks_off e) le = rw (read_chunks, e, append-nil all_data)
  read_chunks-Delivers fuel all_data (ends {block} e answered) le =
      rw (read_chunks, e, answered, append-nil block)
  read_chunks-Delivers zero all_data (goes_on e answered later) le = absurd (omega arith)
  read_chunks-Delivers (suc fuel) all_data
        (goes_on {s'' = end_state} {block} {rest} e answered later) le =
      let on = read_chunks-Delivers fuel (all_data ++ block) later (omega arith) in
      rw (read_chunks, e, answered)
        (on ∙ ap (λ t. (ok t, end_state)) (append_assoc all_data block (joined rest)))

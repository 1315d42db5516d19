-- ===== src/Compaction/SystemText/OneBlock.antt =====
-- `composeSystemMessage` replaces the summary block: `splitSystemMessage` finds the one it wrote.
use llamacli.Prelude.{
  ℕ, zero, suc, ◌+◌, ◌≡◌, ◌≢◌, refl, ap, sym, ◌∙◌, subst, inl, inr, ◌++◌, [], ◌∷◌, length, All,
  take, drop, Text, lit, arith, Bool, true, false, none, some, Option-cases, all, not, ◌==◌,
  length-append,
}
use mathlib.Core.List.{append_assoc}
use llamacli.Compaction.Message.{join, non_empty}
use llamacli.Compaction.Trim.{IsPrefix, trim_end-IsPrefix}
use llamacli.Compaction.SystemText.{
  starts_with, index_of, summary_header, trim, trim_end, split_system_message,
  compose_system_message, SystemParts,
}
use llamacli.Compaction.SystemText.Search.{
  starts_with-before, starts_with_self, index_of-prefix, index_of-take, index_of-after,
}

abbrev no_break : ℕ → Bool
no_break c = not (c == 10)

all-no_break : (h : Text) → all no_break h ≡ true → All (λ c. c ≢ 10) h
all-no_break [] e = tt
all-no_break (c ∷ h) e = (ground arith, all-no_break h (ground arith))

header_lines : All (λ c. c ≢ 10) summary_header
unfolding summary_header lit
header_lines = all-no_break summary_header refl

header_non_empty : summary_header ≢ []
unfolding summary_header lit
header_non_empty e = cons-ne-nil (lit "Compacted history summary]") e
  where
    cons-ne-nil : (t : Text) → 91 ∷ t ≢ []
    cons-ne-nil t e = ground arith

prefix_without : (h p s : Text) → h ≢ [] → IsPrefix p s → index_of h s ≡ none → index_of h p ≡ none
prefix_without [] p s k _ _ = absurd (k refl)
prefix_without (a ∷ h) p s k (rest, e) f =
    index_of-prefix a h p rest (subst (λ z. index_of (a ∷ h) z ≡ none) e f)

take_without : (h s : Text) (i : ℕ) → h ≢ [] → index_of h s ≡ some i → index_of h (take i s) ≡ none
take_without [] s i k _ = absurd (k refl)
take_without (a ∷ h) s i k e = index_of-take a h s i e

split_at :
    (content : Text) (i : ℕ)
    → index_of summary_header content ≡ some i
    → split_system_message content ≡ record {
      base = trim_end (take i content);
      summary = some (trim (drop (i + length summary_header) content));
    }
unfolding split_system_message
split_at content i e = ground arith

split_none :
    (content : Text)
    → index_of summary_header content ≡ none
    → split_system_message content ≡ record { base = content; summary = none }
unfolding split_system_message
split_none content e = ground arith

base_without_header : (s : Text) → index_of summary_header (split_system_message s).base ≡ none
base_without_header s = elim (Option-cases (index_of summary_header s)) [
  | inl e ↦ subst (λ p. index_of summary_header p.base ≡ none) (sym (split_none s e)) e
  | inr (i, e) ↦
      subst (λ p. index_of summary_header p.base ≡ none) (sym (split_at s i e))
        (prefix_without summary_header (trim_end (take i s)) (take i s) header_non_empty
          (trim_end-IsPrefix (take i s)) (take_without summary_header s i header_non_empty e))
]

index_of_self : (h t : Text) → h ≢ [] → index_of h (h ++ t) ≡ some 0
unfolding index_of
index_of_self [] t k = absurd (k refl)
index_of_self (a ∷ h) t k = ground (arith, starts_with_self (a ∷ h) t)

index_of-second :
    (h s : Text) (c : ℕ)
    → starts_with h (c ∷ s) ≡ false
    → index_of h s ≡ some 0
    → index_of h (c ∷ s) ≡ some 1
unfolding index_of
index_of-second h s c e f = ground arith

header_not_break : (s : Text) → starts_with summary_header (10 ∷ s) ≡ false
unfolding starts_with
header_not_break s =
    starts_with-before summary_header [] s header_lines
      (starts_with-nil summary_header header_non_empty)
  where
    starts_with-nil : (h : Text) → h ≢ [] → starts_with h [] ≡ false
    starts_with-nil [] k = absurd (k refl)
    starts_with-nil (a ∷ h) k = refl

header_at :
    (b t : Text)
    → index_of summary_header b ≡ none
    → index_of summary_header (b ++ (10 ∷ 10 ∷ (summary_header ++ t))) ≡ some (length b + 2)
header_at b t e =
    let block = summary_header ++ t in
    index_of-after summary_header b (10 ∷ block) 1 header_lines e (header_not_break (10 ∷ block)) (
      index_of-second summary_header block 10 (header_not_break block)
        (index_of_self summary_header t header_non_empty))

trim_end-breaks : (b : Text) → trim_end (b ++ (10 ∷ 10 ∷ [])) ≡ trim_end b
unfolding trim_end llamacli.Compaction.SystemText.is_space
trim_end-breaks [] = refl
trim_end-breaks (c ∷ b) = ground (arith, trim_end-breaks b)

take_whole : (p t : Text) (n : ℕ) → n ≡ length p → take n (p ++ t) ≡ p
take_whole [] t zero e = refl
take_whole [] t (suc n) e = absurd (omega arith)
take_whole (c ∷ p) t zero e = absurd (omega arith)
take_whole (c ∷ p) t (suc n) e = ap (λ z. c ∷ z) (take_whole p t n (omega arith))

drop_whole : (p t : Text) (n : ℕ) → n ≡ length p → drop n (p ++ t) ≡ t
drop_whole [] t zero e = refl
drop_whole [] t (suc n) e = absurd (omega arith)
drop_whole (c ∷ p) t zero e = absurd (omega arith)
drop_whole (c ∷ p) t (suc n) e = drop_whole p t n (omega arith)

take_block : (b t : Text) → take (length b + 2) (b ++ (10 ∷ 10 ∷ t)) ≡ b ++ (10 ∷ 10 ∷ [])
take_block b t =
    ap (take (length b + 2)) (sym (append_assoc b (10 ∷ 10 ∷ []) t))
    ∙ take_whole (b ++ (10 ∷ 10 ∷ [])) t (length b + 2)
        (omega (arith, length-append b (10 ∷ 10 ∷ [])))

drop_block : (b h t : Text) → drop (length b + 2 + length h) (b ++ (10 ∷ 10 ∷ (h ++ t))) ≡ t
drop_block b h t =
    ap (drop (length b + 2 + length h)) (sym (append_assoc b (10 ∷ 10 ∷ h) t))
    ∙ drop_whole (b ++ (10 ∷ 10 ∷ h)) t (length b + 2 + length h)
        (omega (arith, length-append b (10 ∷ 10 ∷ h)))

split_behind :
    (b summary : Text)
    → index_of summary_header b ≡ none
    → split_system_message (b ++ (10 ∷ 10 ∷ (summary_header ++ (10 ∷ summary))))
      ≡ record { base = trim_end b; summary = some (trim (10 ∷ summary)) }
split_behind b summary e =
    let block = summary_header ++ (10 ∷ summary) in
    split_at (b ++ (10 ∷ 10 ∷ block)) (length b + 2) (header_at b (10 ∷ summary) e)
    ∙ ap
        (λ z. record {
          base = trim_end z;
          summary =
              some (trim (drop (length b + 2 + length summary_header) (b ++ (10 ∷ 10 ∷ block))));
        })
        (take_block b block)
    ∙ ap
        (λ z. record {
          base = z;
          summary =
              some (trim (drop (length b + 2 + length summary_header) (b ++ (10 ∷ 10 ∷ block))));
        })
        (trim_end-breaks b)
    ∙ ap (λ z. record { base = trim_end b; summary = some (trim z) })
        (drop_block b summary_header (10 ∷ summary))

split_alone :
    (summary : Text)
    → split_system_message (summary_header ++ (10 ∷ summary))
      ≡ record { base = []; summary = some (trim (10 ∷ summary)) }
unfolding trim_end
split_alone summary =
    split_at (summary_header ++ (10 ∷ summary)) 0
      (index_of_self summary_header (10 ∷ summary) header_non_empty)
    ∙ ap (λ z. record { base = []; summary = some (trim z) })
        (drop_whole summary_header (10 ∷ summary) (0 + length summary_header) (omega arith))

compose_on : Text → Text → Text
compose_on b summary =
    join (lit "\n\n") (non_empty (b ∷ (summary_header ++ (lit "\n" ++ summary)) ∷ []))

split-compose_on :
    (b summary : Text)
    → index_of summary_header b ≡ none
    → split_system_message (compose_on b summary)
      ≡ record { base = trim_end b; summary = some (trim (10 ∷ summary)) }
unfolding compose_on join non_empty lit trim_end summary_header
split-compose_on [] summary e = split_alone summary
split-compose_on (c ∷ b) summary e = split_behind (c ∷ b) summary e

-- What `composeSystemMessage` writes, `splitSystemMessage` reads back: the base prompt up to white space
-- at its end, and the new summary alone, whatever block the original message had.
pub split-compose :
    (original summary : Text)
    → split_system_message (compose_system_message original summary) ≡ record {
      base = trim_end (split_system_message original).base;
      summary = some (trim (10 ∷ summary));
    }
unfolding compose_system_message compose_on
split-compose original summary =
    split-compose_on (split_system_message original).base summary (base_without_header original)

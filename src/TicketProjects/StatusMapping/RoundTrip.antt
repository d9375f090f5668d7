-- ===== src/TicketProjects/StatusMapping/RoundTrip.antt =====
-- The text and the record forms of a status mapping lose nothing.
use Prim.Native.String
use text.Mathlib.TextLemmas.{nil-append, cons-append}
use release_ops.Common.{
  String, Char, code, ◌≡◌, refl, ◌∙◌, ap, true, false, not, List, [], ◌∷◌, map, keep, All, inl, inr,
  Bool-cases, eqb,
}
use release_ops.Common.Text.{
  trim, split, join, is_space, is_empty_text, IsTrimmed, trim-IsTrimmed, trim-cons_space, Lacks,
  trim-Chars, split-Lacks, split_of_Lacks, split-append, cons_head,
}
use release_ops.Common.Json.{lookup, strings_of-of_strings}
use release_ops.TicketProjects.StatusMapping.{
  StatusMappingValues, parse_status_list, format_status_list, status_mapping_from_record,
  status_mapping_to_record,
}

-- A status name that the text form can carry: not blank at an end, not empty, no comma.
pub record IsStatus (s : String) : Type 0 where
  pub trimmed : IsTrimmed s
  pub nonempty : is_empty_text s ≡ false
  pub plain : Lacks b',' s

abbrev clean : List String → List String
clean parts = keep (λ item. not (is_empty_text item)) (map trim parts)

clean-cons : (s : String) (parts : List String) → IsStatus s → clean (s ∷ parts) ≡ s ∷ clean parts
clean-cons s parts h = rw h.trimmed (rw h.nonempty)

-- A space in front of the first part is trimmed away.
clean-cons_head :
    (c : Char) (ps : List String) → is_space c ≡ true → clean (cons_head c ps) ≡ clean ps
unfolding trim
clean-cons_head c [] h = rw (trim-cons_space c "" h)
clean-cons_head c (p ∷ ps) h = rw (trim-cons_space c p h)

-- What `join` puts between two names comes apart at its comma.
split-separator :
    (s rest : String)
    → Lacks b',' s
    → split b',' (String.◌++◌ s (String.◌++◌ ", " rest)) ≡ s ∷ cons_head " " (split b',' rest)
unfolding split
split-separator s rest h =
    rw (cons-append "," " " rest, cons-append " " "" rest, nil-append rest)
      (split-append b',' s (String.◌∷◌ " " rest) "," h refl)

clean-split-join : (vs : List String) → All IsStatus vs → clean (split b',' (join ", " vs)) ≡ vs
unfolding split join trim
clean-split-join [] h = refl
clean-split-join (s ∷ []) (h, _) = rw (split_of_Lacks b',' s h.plain) (clean-cons s [] h)
clean-split-join (s ∷ t ∷ ts) (h, hs) = rw (split-separator s (join ", " (t ∷ ts)) h.plain) (
    clean-cons s (cons_head " " (split b',' (join ", " (t ∷ ts)))) h
    ∙ ap (λ r. s ∷ r)
        (clean-cons_head " " (split b',' (join ", " (t ∷ ts))) refl ∙ clean-split-join (t ∷ ts) hs))

-- Reading a formatted list of names gives the names back.
parse_status_list-format_status_list :
    (values : List String)
    → All IsStatus values
    → parse_status_list (format_status_list values) ≡ values
unfolding parse_status_list format_status_list
parse_status_list-format_status_list values h = clean-split-join values h

clean-IsStatus : (parts : List String) → All (Lacks b',') parts → All IsStatus (clean parts)
clean-IsStatus [] h = tt
clean-IsStatus (p ∷ ps) (h, hs) = elim (Bool-cases (is_empty_text (trim p))) [
  | inl empty ↦ rw empty (clean-IsStatus ps hs)
  | inr full ↦ rw full (
    record {
      trimmed = trim-IsTrimmed p;
      nonempty = full;
      plain = trim-Chars (λ c. eqb (code c) b',' ≡ false) p h;
    },
    clean-IsStatus ps hs,
  )
]

-- Whatever is typed, only clean names come out.
parse_status_list-IsStatus : (value : String) → All IsStatus (parse_status_list value)
unfolding parse_status_list
parse_status_list-IsStatus value = clean-IsStatus (split b',' value) (split-Lacks b',' value)

-- Formatting what was read and reading it again changes nothing.
pub parse_status_list_stable :
    (value : String)
    → parse_status_list (format_status_list (parse_status_list value)) ≡ parse_status_list value
parse_status_list_stable value =
    parse_status_list-format_status_list (parse_status_list value)
      (parse_status_list-IsStatus value)

-- Storing a mapping and loading it again gives the mapping back.
pub from-to_record :
    (v : StatusMappingValues) → status_mapping_from_record (status_mapping_to_record v) ≡ v
unfolding status_mapping_from_record status_mapping_to_record lookup
from-to_record v = rw (
  strings_of-of_strings v.open_statuses,
  strings_of-of_strings v.done,
  strings_of-of_strings v.cancelled,
)

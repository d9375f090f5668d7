-- ===== src/Audit/Marks.antt =====
-- The sections of a report that is accepted, before and after a finding is marked.
use release_ops.Common.{
  ℕ, suc, ◌+◌, String, ◌≡◌, refl, sym, ap, ◌∙◌, true, false, inl, inr, List, [], ◌∷◌, ◌++◌, find,
  length, none, some, if◌then◌else◌, Bool-cases, All, arith,
}
use release_ops.Common.Json.{Entries, insert}
use release_ops.Audit.Result.{ok}
use release_ops.Audit.Scalar.{Scalar, text}
use release_ops.Audit.Finding.{Finding}
use release_ops.Audit.Report.{Section, read_sections}
use release_ops.Audit.Command.{has_id, mark_lines, cons_line}
use release_ops.Audit.Lines.{flatten, IsSection}
use release_ops.Audit.Marking.{mark_block-append, mark_lines-append}
use release_ops.Audit.Value.{IsFiledLine}
use release_ops.Audit.Filed.{parse_finding-marked}
use release_ops.Audit.Sections.{
  all_keys, name_of, next_of, Found, read_sections-cons, read_sections-found, read_sections-trails,
  read_sections-line,
}

-- The first of some findings that has the identifier gets the key `filed`; nothing else changes.
unfoldable pub file_in : String → String → List Finding → List (Entries Scalar)
file_in id value [] = []
file_in id value (f ∷ fs) =
    let later = file_in id value fs in
    if has_id id f then insert "filed" (text value) f.keys ∷ all_keys fs else f.keys ∷ later

pub file_in-here :
    (id value : String) (f : Finding) (fs : List Finding)
    → has_id id f ≡ true
    → file_in id value (f ∷ fs) ≡ insert "filed" (text value) f.keys ∷ all_keys fs
unfolding file_in
file_in-here id value f fs h = rw h refl

pub file_in-later :
    (id value : String) (f : Finding) (fs : List Finding)
    → has_id id f ≡ false
    → file_in id value (f ∷ fs) ≡ f.keys ∷ file_in id value fs
unfolding file_in
file_in-later id value f fs h = rw h refl

-- The name of a section, and the line of the next one.
module _ (id line value : String) (L : IsFiledLine line value) where
  -- The sections after the mark, read again.
  pub record Marked (n : ℕ) (seen : List String) (ss : List Section) (fs : List Finding)
      (tr : List String) (f : Finding) : Type 0 where
    pub offset : ℕ
    pub after : List Section
    pub findings : List Finding
    pub placed : f.line ≡ n + offset
    pub lines : mark_lines offset line (flatten ss) ≡ some (flatten after)
    pub split : All IsSection after
    pub read : read_sections n seen after ≡ ok (findings, tr)
    pub filed : all_keys findings ≡ file_in id value fs

  -- The finding is in this section.
  mark_here :
      (n : ℕ) (seen : List String) (s : Section) (rest : List Section) (fs : List Finding)
      (tr : List String) (f : Finding)
      → IsSection s
      → All IsSection rest
      → (F : Found n seen s rest fs tr) → has_id id F.first ≡ true
      → F.first ≡ f
      → Marked n seen (s ∷ rest) fs tr f
  unfolding mark_lines file_in
  mark_here n seen s rest fs tr f (heading, plain) sections F here same =
      let (body', marked, plain', again, at) =
        parse_finding-marked line value L (name_of s) s.body (suc n) F.first F.parsed plain in
      let s' : Section = record { heading = s.heading; body = body' } in
      let first : Finding = record {
        keys = insert "filed" (text value) F.first.keys;
        line = suc n;
      } in
      let (others, later, kept) =
        read_sections-line (next_of n s) (next_of n s') seen rest F.others tr F.later in
      record {
        offset = 1;
        after = s' ∷ rest;
        findings = first ∷ others;
        placed = ap (λ g. g.line) (sym same) ∙ at ∙ omega arith;
        lines =
            ap (cons_line s.heading) (mark_block-append line s.body (flatten rest) body' marked);
        split = ((heading, plain'), sections);
        read =
            read_sections-found n seen s' rest first others tr F.named F.alone (again (suc n))
              later;
        filed =
            ap (λ ks. insert "filed" (text value) F.first.keys ∷ ks) kept
            ∙ sym (file_in-here id value F.first F.others here)
            ∙ ap (file_in id value) F.all;
      }

  -- The finding is in a later section.
  mark_later :
      (n : ℕ) (s : Section) (rest : List Section) (seen later : List String)
      (fs others : List Finding) (tr : List String) (f : Finding)
      → IsSection s
      → (M : Marked (next_of n s) later rest others tr f) → (fs' : List Finding)
      → read_sections n seen (s ∷ M.after) ≡ ok (fs', tr)
      → all_keys fs' ≡ file_in id value fs
      → Marked n seen (s ∷ rest) fs tr f
  mark_later n s rest seen later fs others tr f section M fs' read filed = record {
    offset = suc (length s.body) + M.offset;
    after = s ∷ M.after;
    findings = fs';
    placed = M.placed ∙ omega arith;
    lines =
        mark_lines-append line (s.heading ∷ s.body) (flatten rest) (flatten M.after) M.offset
          M.lines;
    split = (section, M.split);
    read = read;
    filed = filed;
  }

  -- Every finding that is found can be marked.
  pub read_sections-Marked :
      (n : ℕ) (seen : List String) (ss : List Section) (fs : List Finding) (tr : List String)
      (f : Finding)
      → read_sections n seen ss ≡ ok (fs, tr)
      → All IsSection ss
      → find (has_id id) fs ≡ some f
      → Marked n seen ss fs tr f
  unfolding read_sections file_in
  read_sections-Marked n seen [] fs tr f h all found =
      let none_there : [] ≡ fs = cc in
      let nothing : none ≡ some f = ap (find (has_id id)) none_there ∙ found in absurd (cc)
  read_sections-Marked n seen (s ∷ rest) fs tr f h (section, all) found =
      elim (read_sections-cons n seen s rest fs tr h) [
        | inl F ↦ elim (Bool-cases (has_id id F.first)) [
          | inl here ↦
              let first : some F.first ≡ some f =
                sym (rw here refl) ∙ ap (find (has_id id)) F.all ∙ found in
              mark_here n seen s rest fs tr f section all F here cc
          | inr other ↦
              let among : find (has_id id) F.others ≡ some f =
                sym (rw other refl) ∙ ap (find (has_id id)) F.all ∙ found in
              let M =
                read_sections-Marked (next_of n s) seen rest F.others tr f F.later all among in
              mark_later n s rest seen seen fs F.others tr f section M (F.first ∷ M.findings)
                (read_sections-found n seen s M.after F.first M.findings tr F.named F.alone F.parsed
                  M.read)
                (ap (λ ks. F.first.keys ∷ ks) M.filed
                  ∙ sym (file_in-later id value F.first F.others other)
                  ∙ ap (file_in id value) F.all)
        ]
        | inr T ↦
            let M =
              read_sections-Marked (next_of n s) (seen ++ (name_of s ∷ [])) rest fs tr f T.later all
                found in
            mark_later n s rest seen (seen ++ (name_of s ∷ [])) fs fs tr f section M M.findings
              (read_sections-trails n seen s M.after M.findings tr T.named T.known M.read) M.filed
      ]

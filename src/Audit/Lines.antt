-- ===== src/Audit/Lines.antt =====
-- Lines: `break_at`, and the sections of a report as another form of its lines.
use release_ops.Common.{
  String, ◌==◌, eq_refl, eq_iff, ◌≡◌, refl, sym, ap, subst, ◌∙◌, true, false, inl, inr, List, [],
  ◌∷◌, ◌++◌, Option, none, some, Bool-cases, All,
}
use release_ops.Audit.Finding.{break_at, add_front}
use release_ops.Audit.Report.{Section, is_heading, sections}

add_front-some :
    (line : String) (rest : Option (List String × List String)) (front back : List String)
    → add_front line rest ≡ some (front, back)
    → (more : List String) × (rest ≡ some (more, back)) × (front ≡ line ∷ more)
add_front-some line none front back h = absurd (cc)
add_front-some line (some (more, others)) front back h = (more, cc, cc)

-- No line before the mark is the mark.
pub break_at-front :
    (mark : String) (lines front back : List String)
    → break_at mark lines ≡ some (front, back)
    → All (λ l. l == mark ≡ false) front × (lines ≡ front ++ (mark ∷ back))
unfolding break_at
break_at-front mark [] front back h = absurd (cc)
break_at-front mark (line ∷ lines) front back h = elim (Bool-cases (line == mark)) [
  | inl e ↦
      let step : break_at mark (line ∷ lines) ≡ some ([], lines) = rw e refl in
      let here : some ([], lines) ≡ some (front, back) = sym step ∙ h in
      let none_before : front ≡ [] = cc in
      let after : back ≡ lines = cc in
      (rw none_before tt, rw (none_before, after) (rw ((eq_iff line mark).0 e) refl))
  | inr n ↦
      let step : break_at mark (line ∷ lines) ≡ add_front line (break_at mark lines) = rw n refl in
      let (more, found, same) =
        add_front-some line (break_at mark lines) front back (sym step ∙ h) in
      let (plain, whole) = break_at-front mark lines more back found in
      (
        subst (All (λ l. l == mark ≡ false)) (sym same) (n, plain),
        ap (λ ls. line ∷ ls) whole ∙ sym (ap (λ f. f ++ (mark ∷ back)) same),
      )
]

pub break_at-append :
    (mark : String) (front back : List String)
    → All (λ l. l == mark ≡ false) front
    → break_at mark (front ++ (mark ∷ back)) ≡ some (front, back)
unfolding break_at
break_at-append mark [] back h = rw (eq_refl mark) refl
break_at-append mark (line ∷ front) back (h, hs) = rw (h, break_at-append mark front back hs)

abbrev pub flatten : List Section → List String
flatten [] = []
flatten (s ∷ ss) = s.heading ∷ (s.body ++ flatten ss)

-- A line that begins no section.
abbrev pub Plain : String → Type 0
Plain line = is_heading line ≡ false

abbrev pub IsSection : Section → Type 0
IsSection s = (is_heading s.heading ≡ true) × All Plain s.body

pub sections-IsSection :
    (lines : List String)
    → All Plain (sections lines).0
      × All IsSection (sections lines).1
      × ((sections lines).0 ++ flatten (sections lines).1 ≡ lines)
unfolding sections
sections-IsSection [] = (tt, tt, refl)
sections-IsSection (line ∷ lines) =
    let (plain, all, same) = sections-IsSection lines in
    elim (Bool-cases (is_heading line)) [
      | inl h ↦ rw h (tt, ((h, plain), all), rw same)
      | inr n ↦ rw n ((n, plain), all, rw same)
    ]

sections-Plain :
    (front lines : List String) (ss : List Section)
    → All Plain front
    → sections lines ≡ ([], ss)
    → sections (front ++ lines) ≡ (front, ss)
unfolding sections
sections-Plain [] lines ss h e = e
sections-Plain (line ∷ front) lines ss (h, hs) e = rw (sections-Plain front lines ss hs e) (rw h)

sections-flatten : (ss : List Section) → All IsSection ss → sections (flatten ss) ≡ ([], ss)
unfolding sections
sections-flatten [] h = refl
sections-flatten (s ∷ ss) ((h, plain), hs) =
    rw (sections-Plain s.body (flatten ss) ss plain (sections-flatten ss hs)) (rw h)

-- Sections that are written one after another are read again.
pub sections_of_flatten :
    (front : List String) (ss : List Section)
    → All Plain front
    → All IsSection ss
    → sections (front ++ flatten ss) ≡ (front, ss)
sections_of_flatten front ss h hs = sections-Plain front (flatten ss) ss h (sections-flatten ss hs)

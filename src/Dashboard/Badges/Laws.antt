-- ===== src/Dashboard/Badges/Laws.antt =====
-- What the badges and cells of the dashboard show.
use release_ops.Common.{
  String, ◌==◌, eq_iff, ◌≡◌, ◌≢◌, refl, sym, ◌∙◌, ap, ◌⊎◌, inl, inr, Bool, true, false, Option,
  none, some, arith, Bool-cases,
}
use release_ops.Dashboard.Badges.{
  card_variant, history_variant, Protocol, is_web, is_http_url, TicketCell, link, plain, present,
  ticket_cell_of, event_ticket_cell, PollRunEvent, warning, secondary,
}

clash : (b : Bool) → b ≡ true → b ≡ false → ⊥
clash true h k = absurd (cc)
clash false h k = absurd (cc)

-- The badge of the status card and that of the history have the same colour for every run, except
-- that a partial run is a warning in the history only.
pub card-history_variant :
    (status : String)
    → ((card_variant (some status) false ≡ history_variant status) × (status ≢ "partial"))
      ⊎ ((status ≡ "partial")
          × (card_variant (some status) false ≡ secondary)
          × (history_variant status ≡ warning))
unfolding card_variant history_variant
card-history_variant status = elim (Bool-cases (status == "partial")) [
  | inl e ↦ inr (
    (eq_iff status "partial").0 e,
    rw ((eq_iff status "partial").0 e) refl,
    rw ((eq_iff status "partial").0 e) refl,
  )
  | inr n ↦ inl (rw n refl, λ e. clash _ ((eq_iff status "partial").1 e) n)
]

present-some : (o : Option String) (s : String) → present o ≡ some s → o ≡ some s
present-some none s h = absurd (cc)
present-some (some t) s h = ground arith

is_web-cases : (o : Option String) → is_web o ≡ true → (o ≡ some "http:") ⊎ (o ≡ some "https:")
is_web-cases none h = absurd (cc)
is_web-cases (some p) h = elim (Bool-cases (p == "http:")) [
  | inl e ↦ inl (ap some ((eq_iff p "http:").0 e))
  | inr n ↦ inr (ap some ((eq_iff p "https:").0 (other n)))
]
  where
    other : (p == "http:") ≡ false → (p == "https:") ≡ true
    other n = ground arith

href_of : TicketCell → Option String
href_of (link href text) = some href
href_of _ = none

text_of : TicketCell → Option String
text_of (link href text) = some text
text_of _ = none

links_web : Protocol → TicketCell → Bool
links_web protocol (link href text) = is_http_url protocol href
links_web protocol _ = false

web-protocol :
    (protocol : Protocol) (href : String)
    → is_http_url protocol href ≡ true
    → (protocol href ≡ some "http:") ⊎ (protocol href ≡ some "https:")
unfolding is_http_url
web-protocol protocol href h = is_web-cases (protocol href) h

ticket_cell_of-link :
    (protocol : Protocol) (id url : Option String) (href text : String)
    → ticket_cell_of protocol id url ≡ link href text
    → (url ≡ some href) × (id ≡ some text) × (is_http_url protocol href ≡ true)
unfolding href_of text_of links_web
ticket_cell_of-link protocol none url href text h = absurd (cc)
ticket_cell_of-link protocol (some i) none href text h = absurd (cc)
ticket_cell_of-link protocol (some i) (some u) href text h =
    elim (Bool-cases (is_http_url protocol u)) [
      | inl web ↦ linked u i href text web (sym (rw web refl) ∙ h)
      | inr bad ↦ absurd (unlinked i href text (sym (rw bad refl) ∙ h))
    ]
  where
    linked :
        (u i href text : String)
        → is_http_url protocol u ≡ true
        → link u i ≡ link href text
        → (some u ≡ some href) × (some i ≡ some text) × (is_http_url protocol href ≡ true)
    linked u i href text web same =
        (ap href_of same, ap text_of same, sym (ap (links_web protocol) same) ∙ web)

    unlinked : (i href text : String) → plain i ≡ link href text → ⊥
    unlinked i href text same = absurd (cc)

-- A ticket is a link only to its own address, and only if that is an address of the web.
event_ticket_cell-link :
    (protocol : Protocol) (event : PollRunEvent) (href text : String)
    → event_ticket_cell protocol event ≡ link href text
    → (event.ticket_url ≡ some href)
      × (event.ticket_external_id ≡ some text)
      × ((protocol href ≡ some "http:") ⊎ (protocol href ≡ some "https:"))
unfolding event_ticket_cell
event_ticket_cell-link protocol event href text h =
    let (url, id, web) =
      ticket_cell_of-link protocol (present event.ticket_external_id) (present event.ticket_url)
        href text h in
    (
      present-some event.ticket_url href url,
      present-some event.ticket_external_id text id,
      web-protocol protocol href web,
    )

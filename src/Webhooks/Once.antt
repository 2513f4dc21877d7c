-- ===== src/Webhooks/Once.antt =====
-- Repeated ticks of the webhook processor (src/workers/webhook-processor.ts).
use udv_shop_api.Prelude.{
  ℕ, ◌≤◌, ◌≡◌, refl, sym, false, ◌&&◌, ◌==◌, none, some, List, [], ◌∷◌, arith, inl, inr, Bool-cases,
  ◌⊎◌, Bool, true, Option, All, ◌∙◌,
}
use mathlib.Core.Path.{subst}
use udv_shop_api.Errors.{Effects}
use udv_shop_api.Schema.{Db}
use udv_shop_api.Table.{find_many, update_first, find_first}
use udv_shop_api.Table.Keys.{count_key, find_key}
use udv_shop_api.Table.Selected.{All-take}
use udv_shop_api.Webhooks.{
  WebhookEvent, Inbox, is_received, set_processed, set_failed, mark_event, finish_event,
  process_all, process_webhook_events, on_payload,
}

abbrev pub event_id_of : WebhookEvent → ℕ
event_id_of e = e.id

abbrev waiting : ℕ → List WebhookEvent → List WebhookEvent
waiting k es = find_many (λ e. e.id == k && is_received e) es

waiting-none : (k : ℕ) (es : List WebhookEvent) → count_key event_id_of k es ≡ 0 → waiting k es ≡ []
unfolding find_many
waiting-none k [] h = refl
waiting-none k (e ∷ es) h = ground (arith, waiting-none k es)

-- A mark that is not "received" leaves nothing waiting under a unique identifier.
waiting-mark :
    (k : ℕ) (f : WebhookEvent → WebhookEvent) (es : List WebhookEvent)
    → count_key event_id_of k es ≤ 1
    → ((e : WebhookEvent) → (f e).id ≡ e.id)
    → ((e : WebhookEvent) → is_received (f e) ≡ false)
    → waiting k (mark_event k f es) ≡ []
unfolding find_many update_first
waiting-mark k f [] u ids marks = refl
waiting-mark k f (e ∷ es) u ids marks = elim (Bool-cases (e.id == k)) [
  | inl t ↦ ground (arith, ids e, marks e, waiting-none k es)
  | inr t ↦ ground (arith, waiting-mark k f es (ground arith) ids marks)
]

-- What is waiting has the identifier.
waiting-id :
    (k : ℕ) (es : List WebhookEvent) (e : WebhookEvent) (rest : List WebhookEvent)
    → waiting k es ≡ e ∷ rest
    → e.id ≡ k
unfolding find_many
waiting-id k [] e rest h = ground arith
waiting-id k (x ∷ es) e rest h = elim (Bool-cases (x.id == k && is_received x)) [
  | inl t ↦ ground arith
  | inr t ↦ ground (arith, waiting-id k es e rest)
]

finish-waiting :
    (e : WebhookEvent) (now : ℕ) (es : List WebhookEvent) (r : Effects Db)
    → count_key event_id_of e.id es ≤ 1
    → waiting e.id (finish_event e now es r).1.events ≡ []
finish-waiting e now es (none, db) u =
    waiting-mark e.id (set_processed now) es u (λ x. refl) (λ x. refl)
finish-waiting e now es (some error, db) u =
    waiting-mark e.id (set_failed error) es u (λ x. refl) (λ x. refl)

List-cases :
    (es : List WebhookEvent)
    → (es ≡ []) ⊎ ((e : WebhookEvent) × (rest : List WebhookEvent) × (es ≡ e ∷ rest))
List-cases [] = inl refl
List-cases (e ∷ rest) = inr (e, rest, refl)

-- With nothing waiting, nothing is done.
idle :
    (k now : ℕ) (s : Inbox)
    → waiting k s.events ≡ []
    → process_webhook_events (some k) now s ≡ (0, s)
unfolding process_webhook_events process_all
idle k now s h = rw h refl

worked :
    (k now : ℕ) (s : Inbox) (e : WebhookEvent) (rest : List WebhookEvent)
    → count_key event_id_of k s.events ≤ 1
    → waiting k s.events ≡ e ∷ rest
    → waiting k (process_webhook_events (some k) now s).1.events ≡ []
unfolding process_webhook_events process_all
worked k now s e rest u h =
    let same = waiting-id k s.events e rest h in
    rw h (
      subst
        (λ j. waiting j (finish_event e now s.events (on_payload e.payload now s.db)).1.events ≡ [])
        same
        (finish-waiting e now s.events (on_payload e.payload now s.db)
          (subst (λ j. count_key event_id_of j s.events ≤ 1) (sym same) u)))

-- With nothing waiting under `k`, the events that are read have other identifiers.
others :
    (k : ℕ) (p : WebhookEvent → Bool) (es : List WebhookEvent)
    → ((e : WebhookEvent) → p e ≡ true → is_received e ≡ true)
    → waiting k es ≡ []
    → All (λ e. (e.id == k) ≡ false) (find_many p es)
unfolding find_many
others k p [] h w = tt
others k p (e ∷ es) h w = elim (Bool-cases (p e)) [
  | inr t ↦ rw t (others k p es h (ground (arith)))
  | inl t ↦ rw t (ground (arith, h e t), others k p es h (ground (arith, h e t)))
]

find_key-mark :
    (j k : ℕ) (f : WebhookEvent → WebhookEvent) (es : List WebhookEvent)
    → (j == k) ≡ false
    → ((e : WebhookEvent) → (f e).id ≡ e.id)
    → find_key event_id_of k (mark_event j f es) ≡ find_key event_id_of k es
unfolding find_first update_first
find_key-mark j k f [] h ids = refl
find_key-mark j k f (e ∷ es) h ids = elim (Bool-cases (e.id == j)) [
  | inl t ↦ ground (arith, ids e)
  | inr t ↦ ground (arith, find_key-mark j k f es h ids)
]

find_key-finish :
    (e : WebhookEvent) (k now : ℕ) (es : List WebhookEvent) (r : Effects Db)
    → (e.id == k) ≡ false
    → find_key event_id_of k (finish_event e now es r).1.events ≡ find_key event_id_of k es
find_key-finish e k now es (none, db) h = find_key-mark e.id k (set_processed now) es h (λ x. refl)
find_key-finish e k now es (some error, db) h =
    find_key-mark e.id k (set_failed error) es h (λ x. refl)

-- A loop over other events leaves an event as it is.
process_all-other :
    (k now : ℕ) (es : List WebhookEvent) (s : Inbox)
    → All (λ e. (e.id == k) ≡ false) es
    → find_key event_id_of k (process_all now es s).1.events ≡ find_key event_id_of k s.events
unfolding process_all
process_all-other k now [] s a = refl
process_all-other k now (e ∷ es) s (h, a) =
    process_all-other k now es (finish_event e now s.events (on_payload e.payload now s.db)).1 a
    ∙ find_key-finish e k now s.events (on_payload e.payload now s.db) h

-- No call touches an event that does not wait, whichever it is asked for.
untouched :
    (k now : ℕ) (asked : Option ℕ) (s : Inbox)
    → waiting k s.events ≡ []
    → find_key event_id_of k (process_webhook_events asked now s).1.events
      ≡ find_key event_id_of k s.events
unfolding process_webhook_events
untouched k now none s w =
    process_all-other k now _ s
      (All-take _ 50 (find_many is_received s.events) (others k is_received s.events (λ e t. t) w))
untouched k now (some j) s w = process_all-other k now _ s (
    All-take _ 1 (find_many (λ e. e.id == j && is_received e) s.events)
      (others k (λ e. e.id == j && is_received e) s.events (λ e t. ground arith) w))

waiting-after :
    (k now : ℕ) (s : Inbox)
    → count_key event_id_of k s.events ≤ 1
    → waiting k (process_webhook_events (some k) now s).1.events ≡ []
waiting-after k now s u = elim (List-cases (waiting k s.events)) [
  | inl z ↦ rw (idle k now s z) z
  | inr (e, rest, z) ↦ worked k now s e rest u z
]

-- After an event was processed, whether it succeeded or threw: asking for it again does nothing, and
-- any later call, the recovery that drains the received events or one for another event, leaves the
-- event as the first call marked it. So one that failed is not tried again. Identifiers are unique.
pub process_webhook_events-twice :
    (k now later : ℕ) (asked : Option ℕ) (s : Inbox)
    → count_key event_id_of k s.events ≤ 1
    → (process_webhook_events (some k) later (process_webhook_events (some k) now s).1
        ≡ (0, (process_webhook_events (some k) now s).1))
      × (find_key event_id_of k
            (process_webhook_events asked later (process_webhook_events (some k) now s).1).1.events
          ≡ find_key event_id_of k (process_webhook_events (some k) now s).1.events)
process_webhook_events-twice k now later asked s u =
    let once = (process_webhook_events (some k) now s).1 in
    (
      idle k later once (waiting-after k now s u),
      untouched k later asked once (waiting-after k now s u),
    )

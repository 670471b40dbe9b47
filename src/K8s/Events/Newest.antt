-- ===== src/K8s/Events/Newest.antt =====
-- FetchEvents returns the newest events of one object.
use mathlib.Core.List.{Permᴰ}
use muthur_collector.Prelude.{
  ℕ, zero, suc, ◌≤◌, ◌≡◌, refl, ap, ◌≢◌, Bool, false, List, [], ◌∷◌, ◌++◌, Text, text, ◌==◌,
  bytes_eq, arith, length, take, drop, length-take, length-drop, take-append-drop, cut-eq-take, ◌<◌,
  inl, inr, Bool-cases, sym, none, some, text_eq_iff,
}
use muthur_collector.Prelude.All.{All}
use muthur_collector.Prelude.Int.{ℤ, pos, negsuc, pos_part, neg_part}
use muthur_collector.Prelude.Result.{ok}
use muthur_collector.Proto.{KubernetesEvent}
use muthur_collector.K8s.{Clientset, CoreEvent, Time}
use muthur_collector.K8s.Lookup.{wrap_error}
use muthur_collector.K8s.Events.{
  SortSlice, max_events_per_object, convert_event, convert_events, newer, fetch_events,
}

-- No element comes before one that it should follow.
abbrev pub Ordered {ℓ} : {A : Type ℓ} → (A → A → Bool) → List A → Type 0
Ordered less [] = Unit
Ordered less (x ∷ xs) = All (λ y. less y x ≡ false) xs × Ordered less xs

-- What sort.Slice promises for the order in use.
pub record IsSortSlice (sort_slice : SortSlice) : Type 0 where
  pub perm : (l : List KubernetesEvent) → Permᴰ (sort_slice newer l) l
  pub ordered : (l : List KubernetesEvent) → Ordered newer (sort_slice newer l)

module _ {ℓ} {A : Type ℓ} (less : A → A → Bool) where
  All-take_drop {κ} :
      (P : A → Type κ) (n : ℕ) (xs : List A) → All P xs → All P (take n xs) × All P (drop n xs)
  All-take_drop P zero xs h = (tt, h)
  All-take_drop P (suc n) [] h = (tt, tt)
  All-take_drop P (suc n) (x ∷ xs) h =
      let (front, back) = All-take_drop P n xs h.1 in ((h.0, front), back)

  Ordered-take : (n : ℕ) (xs : List A) → Ordered less xs → Ordered less (take n xs)
  Ordered-take zero xs h = tt
  Ordered-take (suc n) [] h = tt
  Ordered-take (suc n) (x ∷ xs) h =
      ((All-take_drop (λ y. less y x ≡ false) n xs h.0).0, Ordered-take n xs h.1)

  -- What is cut off comes after all that is kept.
  Ordered-take-drop :
      (n : ℕ) (xs : List A)
      → Ordered less xs
      → All (λ x. All (λ y. less y x ≡ false) (drop n xs)) (take n xs)
  Ordered-take-drop zero xs h = tt
  Ordered-take-drop (suc n) [] h = tt
  Ordered-take-drop (suc n) (x ∷ xs) h =
      ((All-take_drop (λ y. less y x ≡ false) n xs h.0).1, Ordered-take-drop n xs h.1)

-- The seconds of a time; a time before 1970, as the zero time, counts as 0.
abbrev seconds : Time → ℕ
seconds none = 0
seconds (some t) = pos_part t

-- When an event was first and last seen: its own times, or those of the series and of the event.
abbrev first_time : CoreEvent → ℕ
first_time ev = seconds (elim ev.first_timestamp [ none ↦ ev.event_time | some t ↦ some t ])

abbrev last_time : CoreEvent → ℕ
last_time ev = seconds (elim ev.last_timestamp [
  | none ↦ elim ev.series [ none ↦ ev.event_time | some s ↦ s.last_observed_time ]
  | some t ↦ some t
])

-- How often an event was seen, by its own count or that of the series its last time is from; a count of
-- 0 is one time.
abbrev at_least_one : ℤ → ℤ
at_least_one (pos zero) = pos 1
at_least_one (pos (suc n)) = pos (suc n)
at_least_one (negsuc n) = negsuc n

abbrev times_seen : CoreEvent → ℤ
times_seen ev = at_least_one (elim ev.last_timestamp [
  | none ↦ elim ev.series [ none ↦ ev.count | some s ↦ s.count ]
  | some t ↦ ev.count
])

-- The event of the payload that stands for one of the API.
pub record IsFrom (ev : CoreEvent) (e : KubernetesEvent) : Type 0 where
  pub event_type : e.event_type ≡ ev.event_type
  pub reason : e.reason ≡ ev.reason
  pub message : e.message ≡ ev.message
  pub involved : e.involved_object_name ≡ ev.involved_object_name
  pub first : e.first_timestamp ≡ pos (first_time ev)
  pub last : e.last_timestamp ≡ pos (last_time ev)
  pub count : e.count ≡ times_seen ev

-- The events about the object, one for one and in their order; those about other objects are left out.
pub data Selected (object_name : Text) : List CoreEvent → List KubernetesEvent → Type 0 where
  done : Selected object_name [] []
  taken :
      {ev : CoreEvent} {e : KubernetesEvent} {items : List CoreEvent} {es : List KubernetesEvent}
      → ev.involved_object_name ≡ object_name
      → IsFrom ev e
      → Selected object_name items es
      → Selected object_name (ev ∷ items) (e ∷ es)
  skipped :
      {ev : CoreEvent} {items : List CoreEvent} {es : List KubernetesEvent}
      → ev.involved_object_name ≢ object_name
      → Selected object_name items es
      → Selected object_name (ev ∷ items) es

convert_event-IsFrom :
    (object_name : Text) (ev : CoreEvent)
    → ev.involved_object_name ≡ object_name
    → IsFrom ev (convert_event object_name ev)
unfolding convert_event
convert_event-IsFrom object_name ev about = record {
  event_type = refl;
  reason = refl;
  message = refl;
  involved = sym about;
  first = ground arith;
  last = ground arith;
  count = ground arith;
}

convert_events-Selected :
    (object_name : Text) (items : List CoreEvent)
    → Selected object_name items (convert_events object_name items)
unfolding convert_events
convert_events-Selected object_name [] = done
convert_events-Selected object_name (ev ∷ items) =
    let rest = convert_events-Selected object_name items in
    elim (Bool-cases (ev.involved_object_name == object_name)) [
      | inl h ↦
          let about = (text_eq_iff ev.involved_object_name object_name).0 h in
          rw (convert_events, h) (taken about (convert_event-IsFrom object_name ev about) rest)
      | inr h ↦
          rw (convert_events, h)
            (skipped (λ e. cc (h, (text_eq_iff ev.involved_object_name object_name).1 e)) rest)
    ]

-- Seen last no later than.
abbrev NotLater : KubernetesEvent → KubernetesEvent → Type 0
NotLater d e = pos_part d.last_timestamp ≤ pos_part e.last_timestamp

abbrev NewestFirst : List KubernetesEvent → Type 0
NewestFirst [] = Unit
NewestFirst (e ∷ es) = All (λ d. NotLater d e) es × NewestFirst es

not_newer : (d e : KubernetesEvent) → newer d e ≡ false → NotLater d e
not_newer d e h = ground arith

All-NotLater :
    (e : KubernetesEvent) (ds : List KubernetesEvent)
    → All (λ d. newer d e ≡ false) ds
    → All (λ d. NotLater d e) ds
All-NotLater e [] h = tt
All-NotLater e (d ∷ ds) h = (not_newer d e h.0, All-NotLater e ds h.1)

Ordered-NewestFirst : (es : List KubernetesEvent) → Ordered newer es → NewestFirst es
Ordered-NewestFirst [] h = tt
Ordered-NewestFirst (e ∷ es) h = (All-NotLater e es h.0, Ordered-NewestFirst es h.1)

All-before :
    (ds es : List KubernetesEvent)
    → All (λ e. All (λ d. newer d e ≡ false) ds) es
    → All (λ e. All (λ d. NotLater d e) ds) es
All-before ds [] h = tt
All-before ds (e ∷ es) h = (All-NotLater e ds h.0, All-before ds es h.1)

-- The events returned and those left out: together those about the object, each once; by falling time,
-- and those left out no later than those returned.
pub record IsNewest (object_name : Text) (items : List CoreEvent) (kept left : List KubernetesEvent)
    : Type 0 where
  pub about : List KubernetesEvent
  pub selected : Selected object_name items about
  pub perm : Permᴰ (kept ++ left) about
  pub ordered : NewestFirst kept
  pub newest : All (λ e. All (λ d. NotLater d e) left) kept
  pub capped : length kept ≤ 25
  pub full : left ≢ [] → length kept ≡ 25

length-of_ne_nil {ℓ} : {A : Type ℓ} (xs : List A) → xs ≢ [] → 0 < length xs
length-of_ne_nil [] h = absurd (h refl)
length-of_ne_nil (x ∷ xs) h = omega arith

IsNewest-take :
    (sort_slice : SortSlice) (object_name : Text) (items : List CoreEvent)
    → IsSortSlice sort_slice
    → let sorted = sort_slice newer (convert_events object_name items) in
      IsNewest object_name items
        (take max_events_per_object sorted)
        (drop max_events_per_object sorted)
IsNewest-take sort_slice object_name items s =
    let l = convert_events object_name items in
    let sorted = sort_slice newer l in
    let kept = take max_events_per_object sorted in
    let left = drop max_events_per_object sorted in
    record {
      about = l;
      selected = convert_events-Selected object_name items;
      perm = rw (take-append-drop max_events_per_object sorted) (s.perm l);
      ordered =
          Ordered-NewestFirst kept (Ordered-take newer max_events_per_object sorted (s.ordered l));
      newest =
          All-before left kept (Ordered-take-drop newer max_events_per_object sorted (s.ordered l));
      capped = omega (arith, length-take max_events_per_object sorted);
      full = λ h. omega (
        arith,
        length-of_ne_nil left h,
        length-take max_events_per_object sorted,
        length-drop max_events_per_object sorted,
      );
    }

-- When the API lists the events and sort.Slice sorts by the order it is given, FetchEvents returns at
-- most 25 of the events whose object is the named one, with their times and counts, by falling time of
-- their last occurrence; what it leaves out is no later than what it returns, and it leaves nothing out
-- below 25.
pub fetch_events-IsNewest :
    (sort_slice : SortSlice) (c : Clientset) (namespace object_name : Text) (items : List CoreEvent)
    → IsSortSlice sort_slice
    → c.list_events namespace (text "involvedObject.name=" ++ object_name) ≡ ok items
    → (kept left : List KubernetesEvent) × (fetch_events sort_slice c namespace object_name
        ≡ ok kept)
      × IsNewest object_name items kept left
unfolding fetch_events
fetch_events-IsNewest sort_slice c namespace object_name items s listed =
    let sorted = sort_slice newer (convert_events object_name items) in
    (
      take max_events_per_object sorted,
      drop max_events_per_object sorted,
      rw (listed, wrap_error)
          (ap (λ (x : List KubernetesEvent). ok x) (cut-eq-take max_events_per_object sorted)),
      IsNewest-take sort_slice object_name items s,
    )

-- An event as it is sent: about the object, with times that are not negative and a count.
pub record IsNormal (object_name : Text) (e : KubernetesEvent) : Type 0 where
  pub involved : e.involved_object_name ≡ object_name
  pub first : neg_part e.first_timestamp ≡ 0
  pub last : neg_part e.last_timestamp ≡ 0
  pub counted : e.count ≢ pos 0

convert_event-IsNormal :
    (object_name : Text) (ev : CoreEvent) → IsNormal object_name (convert_event object_name ev)
unfolding convert_event
convert_event-IsNormal object_name ev = ground arith

-- Every event that is converted is about the object, has no negative time and a count that is not 0.
pub convert_events-IsNormal :
    (object_name : Text) (items : List CoreEvent)
    → All (IsNormal object_name) (convert_events object_name items)
unfolding convert_events
convert_events-IsNormal object_name [] = tt
convert_events-IsNormal object_name (ev ∷ items) =
    elim (Bool-cases (ev.involved_object_name == object_name)) [
      | inl h ↦
          rw h (convert_event-IsNormal object_name ev, convert_events-IsNormal object_name items)
      | inr h ↦ rw h (convert_events-IsNormal object_name items)
    ]

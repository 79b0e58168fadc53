-- ===== src/Publisher/Attempts.antt =====
-- event-publisher.service.ts: the attempts of a message, and the messages that were published.
use turno_flow.Prelude.{
  ℕ, suc, zero, ◌+◌, ◌≤◌, ◌<◌, ◌≡◌, ◌≢◌, refl, sym, ◌∙◌, subst, arith, List, [], ◌∷◌, String, Bool,
  true, false, update_where, Option, none, some, ◌==◌, keep, keep-In_iff, any, any_witness, In, inl,
  inr, All, All-In, All-of_each, Ordered, All-update_where, find_first-In, Bool-cases,
}
use turno_flow.Schema.{OutboxEvent, EventOutboxStatus}
use turno_flow.Booking.Changes.{some-injective}
use turno_flow.Publisher.{is_publishable, take, answered, publish_batch, through, publish_pending}

abbrev IsDistinct : List OutboxEvent → Type 0
IsDistinct rows = Ordered (λ a b. a.id ≢ b.id) rows

take-In : (n : ℕ) (a : OutboxEvent) (xs : List OutboxEvent) → In a (take n xs) → In a xs
take-In zero a xs m = elim m [ ]
take-In (suc n) a [] m = elim m [ ]
take-In (suc n) a (x ∷ xs) (inl e) = inl e
take-In (suc n) a (x ∷ xs) (inr m) = inr (take-In n a xs m)

take-IsDistinct : (n : ℕ) (xs : List OutboxEvent) → IsDistinct xs → IsDistinct (take n xs)
take-IsDistinct zero xs h = tt
take-IsDistinct (suc n) [] h = tt
take-IsDistinct (suc n) (x ∷ xs) h = (
  All-of_each (λ b. x.id ≢ b.id) (take n xs)
      (λ b m. All-In (λ b. x.id ≢ b.id) xs h.0 (take-In n b xs m)),
  take-IsDistinct n xs h.1,
)

keep-IsDistinct :
    (p : OutboxEvent → Bool) (xs : List OutboxEvent) → IsDistinct xs → IsDistinct (keep p xs)
keep-IsDistinct p [] h = tt
keep-IsDistinct p (x ∷ xs) h = elim (Bool-cases (p x)) [
  | inl e ↦ rw e (
    All-of_each (λ b. x.id ≢ b.id) (keep p xs)
        (λ b m. All-In (λ b. x.id ≢ b.id) xs h.0 ((keep-In_iff p b xs).0 m).0),
    keep-IsDistinct p xs h.1,
  )
  | inr e ↦ rw e (keep-IsDistinct p xs h.1)
]

-- Two rows of a table with distinct identifiers that share one are the same row.
same_row :
    (rows : List OutboxEvent) (a b : OutboxEvent)
    → IsDistinct rows
    → In a rows
    → In b rows
    → a.id ≡ b.id
    → a ≡ b
same_row rows a b h ma mb e = some-injective (
    sym (find_first-In (λ r. r.id) b.id rows h ma e)
    ∙ find_first-In (λ r. r.id) b.id rows h mb refl)

abbrev awaits : List OutboxEvent → OutboxEvent → Bool
awaits batch r = any (λ e. e.id == r.id) batch

-- A row within its bound, which leaves room for an attempt if its message is still to be sent.
abbrev Within : List OutboxEvent → OutboxEvent → Type 0
Within batch r = (r.attempts ≤ 5) × (awaits batch r ≡ true → r.attempts < 5)

answered-attempts :
    (now : ℕ) (answer : Option String) (r : OutboxEvent)
    → ((answered now answer r).attempts ≤ r.attempts + 1) × ((answered now answer r).id ≡ r.id)
answered-attempts now none r = (omega arith, refl)
answered-attempts now (some m) r = (omega arith, refl)

-- The first message of a batch and its row.
awaits-first :
    (e r : OutboxEvent) (es : List OutboxEvent) → (r.id == e.id) ≡ true → awaits (e ∷ es) r ≡ true
awaits-first e r es hit = let same : (e.id == r.id) ≡ true = ground arith in rw same refl

awaits-rest :
    (e r : OutboxEvent) (es : List OutboxEvent) → awaits es r ≡ true → awaits (e ∷ es) r ≡ true
awaits-rest e r es h = ground arith

-- No other message of the batch has the row of the first.
awaits-once :
    (e r x : OutboxEvent) (es : List OutboxEvent)
    → All (λ b. e.id ≢ b.id) es
    → (r.id == e.id) ≡ true
    → x.id ≡ r.id
    → ¬ (awaits es x ≡ true)
awaits-once e r x es h hit same waiting =
    let (b, m, named) = any_witness (λ b. b.id == x.id) es waiting in
    All-In (λ b. e.id ≢ b.id) es h m (ground arith)

publish_batch-Within :
    (publish : OutboxEvent → Option String) (now : ℕ) (batch rows : List OutboxEvent)
    → IsDistinct batch
    → All (Within batch) rows
    → All (λ r. r.attempts ≤ 5) (publish_batch publish now batch rows)
unfolding publish_batch
publish_batch-Within publish now [] rows h w =
    All-of_each (λ r. r.attempts ≤ 5) rows (λ r m. (All-In (Within []) rows w m).0)
publish_batch-Within publish now (e ∷ es) rows h w = publish_batch-Within publish now es _ h.1 (
    All-update_where (λ r. r.id == e.id) (answered now (publish e)) (Within (e ∷ es)) (Within es)
      rows w
      (λ r q hit.
        let (le, same) = answered-attempts now (publish e) r in
        let room : r.attempts < 5 = q.1 (awaits-first e r es hit) in
        (
          omega arith,
          λ waiting. absurd (awaits-once e r (answered now (publish e) r) es h.0 hit same waiting),
        ))
      (λ r q miss. (q.0, λ waiting. q.1 (awaits-rest e r es waiting))))

publishable_room : (e : OutboxEvent) → is_publishable e ≡ true → e.attempts < 5
publishable_room e h = ground arith

same_id : (a b : ℕ) → (a == b) ≡ true → a ≡ b
same_id a b h = ground arith

-- Where identifiers are distinct and no message has had more than five attempts, no message has had
-- more than five after a round of publishing, whatever the broker answers.
pub publish_pending-attempts :
    (channel : Option String) (publish : OutboxEvent → Option String) (now : ℕ)
    (outbox : List OutboxEvent)
    → IsDistinct outbox
    → All (λ r. r.attempts ≤ 5) outbox
    → All (λ r. r.attempts ≤ 5) (publish_pending channel publish now outbox)
unfolding publish_pending
publish_pending-attempts channel publish now outbox h le =
    let chosen = keep is_publishable outbox in
    let batch = take 25 chosen in
    publish_batch-Within (through channel publish) now batch outbox
      (take-IsDistinct 25 chosen (keep-IsDistinct is_publishable outbox h))
      (All-of_each (Within batch) outbox (λ r m. (
        All-In (λ r. r.attempts ≤ 5) outbox le m,
        λ waiting.
            let (e, me, same) = any_witness (λ e. e.id == r.id) batch waiting in
            let (listed, publishable) =
              (keep-In_iff is_publishable e outbox).0 (take-In 25 e chosen me) in
            let is_r : e ≡ r = same_row outbox e r h listed m (same_id e.id r.id same) in
            let room = publishable_room e publishable in subst (λ x. x.attempts < 5) is_r room,
      )))

row_kept :
    (p : OutboxEvent → Bool) (f : OutboxEvent → OutboxEvent) (x : OutboxEvent)
    (xs : List OutboxEvent)
    → In x xs
    → p x ≡ false
    → In x (update_where p f xs)
row_kept p f x [] m miss = elim m [ ]
row_kept p f x (y ∷ ys) (inl e) miss =
    let other : p y ≡ false = subst (λ z. p z ≡ false) e miss in inl (rw other e)
row_kept p f x (y ∷ ys) (inr m) miss = inr (row_kept p f x ys m miss)

publish_batch-kept :
    (publish : OutboxEvent → Option String) (now : ℕ) (p : OutboxEvent)
    (batch rows : List OutboxEvent)
    → ((e : OutboxEvent) → In e batch → p.id ≢ e.id)
    → In p rows
    → In p (publish_batch publish now batch rows)
unfolding publish_batch
publish_batch-kept publish now p [] rows other m = m
publish_batch-kept publish now p (e ∷ es) rows other m =
    let apart = other e (inl refl) in
    let miss : (p.id == e.id) ≡ false = ground arith in
    publish_batch-kept publish now p es _ (λ b mb. other b (inr mb))
      (row_kept (λ r. r.id == e.id) (answered now (publish e)) p rows m miss)

unpublishable :
    (a : OutboxEvent) → a.status ≡ EventOutboxStatus.published → is_publishable a ≡ false
unpublishable a h = ground arith

-- Where identifiers are distinct, a message that was published is still in the outbox, unchanged,
-- after a round of publishing.
pub publish_pending-published :
    (channel : Option String) (publish : OutboxEvent → Option String) (now : ℕ)
    (outbox : List OutboxEvent)
    → IsDistinct outbox
    → (p : OutboxEvent) → In p outbox
    → p.status ≡ EventOutboxStatus.published
    → In p (publish_pending channel publish now outbox)
unfolding publish_pending
publish_pending-published channel publish now outbox h p m done =
    let chosen = keep is_publishable outbox in
    publish_batch-kept (through channel publish) now p (take 25 chosen) outbox
      (λ e me same.
        let (listed, publishable) =
          (keep-In_iff is_publishable e outbox).0 (take-In 25 e chosen me) in
        let is_e : p ≡ e = same_row outbox p e h m listed same in
        let shut = subst (λ x. is_publishable x ≡ false) is_e (unpublishable p done) in
        cc (shut, publishable))
      m

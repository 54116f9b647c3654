-- ===== src/Storage/Invites/Consume.antt =====
-- ConsumeInvite of internal/storage/store.go: an invite code works once, and only while it is valid.
use maxbridge.Text.{==ᵗ_refl, Text, ◌==ᵗ◌, ==ᵗ_iff}
use maxbridge.Storage.Database.{
  transaction-served, served, transaction-ok, pure, transaction_atomic, invite_not_found, err,
  raise, DbError, ◌>>=◌, ok, Exec, Db,
}
use maxbridge.Prelude.{
  ◌++◌, ==ℤ_refl, ap, ◌∙◌, DistinctBy-eq, subst, Memᴰ-filter, sym, Memᴰ-any, refl, inr, inl, [],
  ◌≢◌, ℤ, ◌∷◌, ◌≤◌, Bool-cases, any, none, true, Bool, Memᴰ, if◌then◌else◌, arith, not, filter,
  false, some, find, ◌≡◌, DistinctBy, List,
}
use maxbridge.Storage.Invites.{
  new_invite, delete_invite, create_invite, Metadata, consume_invite, has_invite_id, is_spent,
  has_hash, not_found, select_invite,
}
use maxbridge.Storage.Tables.{Metadata, Time, Invite, Tables}

abbrev pub DistinctHashes : List Invite → Type 0
DistinctHashes = DistinctBy ◌==ᵗ◌ (λ i. i.code_hash)

-- The body of the transaction.
abbrev consume_body : Time → Text → Exec Invite
consume_body now hash = (λ db. let (r, db') = select_invite hash db in (not_found r, db')) >>= λ i.
    if is_spent now i then raise invite_not_found else (delete_invite i.id >>= λ _. pure i)

consume_body-ok :
    (now : Time) (hash : Text) (db : Db) {i : Invite}
    → (consume_body now hash db).0 ≡ ok i
    → (find (has_hash hash) db.tables.invites ≡ some i)
      × (is_spent now i ≡ false)
      × ((consume_body now hash db).1.tables ≡ record db.tables {
        invites = filter (λ x. not (has_invite_id i.id x)) db.tables.invites;
      })
consume_body-ok now hash db h = ground arith

find-Memᴰ :
    {A : Type 0} (test : A → Bool) (xs : List A) {x : A}
    → find test xs ≡ some x
    → Memᴰ x xs × (test x ≡ true)
find-Memᴰ test [] e = cc
find-Memᴰ test (y ∷ ys) {x} e = elim (Bool-cases (test y)) [
  | inl t ↦
      let same : y ≡ x = ground arith in (Memᴰ.head (sym same), subst (λ z. test z ≡ true) same t)
  | inr f ↦ let later = find-Memᴰ test ys {x = x} (ground arith) in (Memᴰ.tail later.0, later.1)
]

find-none : {A : Type 0} (test : A → Bool) (xs : List A) → any test xs ≡ false → find test xs ≡ none
find-none test [] h = refl
find-none test (x ∷ xs) h = ground (arith, find-none test xs)

-- The rows that are left once the only row with a hash is deleted.
any-delete :
    (hash : Text) (i : Invite) (xs : List Invite)
    → DistinctHashes xs
    → Memᴰ i xs
    → has_hash hash i ≡ true
    → any (has_hash hash) (filter (λ x. not (has_invite_id i.id x)) xs) ≡ false
any-delete hash i xs d m h =
    elim (Bool-cases (any (has_hash hash) (filter (λ x. not (has_invite_id i.id x)) xs))) [
      | inr gone ↦ gone
      | inl left ↦
          let kept = filter (λ x. not (has_invite_id i.id x)) xs in
          let (x, n, hx) = Memᴰ-any (has_hash hash) kept left in
          let (n', other) = Memᴰ-filter (λ y. not (has_invite_id i.id y)) xs n in
          let same : x ≡ i =
            DistinctBy-eq ◌==ᵗ◌ (λ y. y.code_hash) xs (λ a b e. (==ᵗ_iff a b).1 e) d x i n' m
              ((==ᵗ_iff x.code_hash hash).0 hx ∙ sym ((==ᵗ_iff i.code_hash hash).0 h)) in
          cc (other, same, ==ℤ_refl i.id)
    ]

-- A successful ConsumeInvite returns a row that carries the hash, was not revoked, had not expired on
-- the caller's clock and was not a single-use invite with a use. With distinct hashes it has removed
-- that row, also where the invite is not single-use: no later ConsumeInvite of the hash succeeds,
-- at any time and on any course of failures, while the invites are as it left them.
pub consume_invite_once :
    (now now' : Time) (hash : Text) (db db' : Db) (i : Invite)
    → (consume_invite now hash db).0 ≡ ok i
    → DistinctHashes db.tables.invites
    → db'.tables.invites ≡ (consume_invite now hash db).1.tables.invites
    → Memᴰ i db.tables.invites
      × (i.code_hash ≡ hash)
      × (i.revoked_at ≡ none)
      × (now ≤ i.expires_at)
      × (i.single_use ≡ true → i.used_at ≡ none)
      × ((j : Invite) → (consume_invite now' hash db').0 ≢ ok j)
unfolding consume_invite is_spent
consume_invite_once now now' hash db db' i h d same =
    let (done, tables) = transaction-ok (consume_body now hash) db h in
    let (found, fresh, left) = consume_body-ok now hash (served db) done in
    let (listed, carries) = find-Memᴰ (has_hash hash) db.tables.invites found in
    let gone =
      subst (λ xs. find (has_hash hash) xs ≡ none)
        (sym (same ∙ ap (λ (t : Tables). t.invites) (tables ∙ left)))
        (find-none (has_hash hash) _ (any-delete hash i db.tables.invites d listed carries)) in
    (
      listed,
      (==ᵗ_iff i.code_hash hash).0 carries,
      ground (arith, fresh),
      ground (arith, fresh),
      ground (arith, fresh),
      λ j again. cc (
        gone,
        (consume_body-ok now' hash (served db')
            (transaction-ok (consume_body now' hash) db' again).0).0,
      ),
    )

-- A ConsumeInvite that fails, for whatever reason, leaves every table as it was.
pub consume_invite_atomic :
    (now : Time) (hash : Text) (db : Db) (e : DbError)
    → (consume_invite now hash db).0 ≡ err e
    → (consume_invite now hash db).1.tables ≡ db.tables
unfolding consume_invite
consume_invite_atomic now hash db e h = transaction_atomic (consume_body now hash) db h

find-snoc :
    {A : Type 0} (test : A → Bool) (xs : List A) (x : A)
    → any test xs ≡ false
    → test x ≡ true
    → find test (xs ++ x ∷ []) ≡ some x
find-snoc test [] x h t = rw t
find-snoc test (y ∷ ys) x h t = ground (arith, find-snoc test ys x)

create_invite-ok :
    (scope_type scope_id hash : Text) (expires_at : Time) (single_use : Bool) (metadata : Metadata)
    (db : Db) (id : ℤ)
    → (create_invite scope_type scope_id hash expires_at single_use metadata db).0 ≡ ok id
    → db.faults ≡ []
    → let db' = (create_invite scope_type scope_id hash expires_at single_use metadata db).1 in
      (find (has_hash hash) db'.tables.invites
        ≡ some (new_invite id db.now scope_type scope_id hash expires_at single_use metadata))
      × (db'.faults ≡ [])
unfolding create_invite
create_invite-ok scope_type scope_id hash expires_at single_use metadata db id h clean = ground (
  arith,
  find-snoc (has_hash hash) db.tables.invites
      (new_invite id db.now scope_type scope_id hash expires_at single_use metadata),
  ==ᵗ_refl hash,
)

consume_body-served :
    (now : Time) (hash : Text) (db : Db) (i : Invite)
    → db.faults ≡ []
    → find (has_hash hash) db.tables.invites ≡ some i
    → is_spent now i ≡ false
    → ((consume_body now hash db).0 ≡ ok i) × ((consume_body now hash db).1.faults ≡ [])
consume_body-served now hash db i clean found fresh = ground arith

new_invite-unspent :
    (now : Time) (i : Invite)
    → i.used_at ≡ none
    → i.revoked_at ≡ none
    → now ≤ i.expires_at
    → is_spent now i ≡ false
unfolding is_spent
new_invite-unspent now i unused live valid = ground arith

-- A created invite can be consumed: where the database serves every statement, ConsumeInvite of the
-- hash of a successful CreateInvite returns the invite with the id, the scope and the metadata it
-- was created with, at any time that is not past its expiry.
pub consume-create_invite :
    (scope_type scope_id hash : Text) (expires_at now : Time) (single_use : Bool)
    (metadata : Metadata) (db : Db) (id : ℤ)
    → (create_invite scope_type scope_id hash expires_at single_use metadata db).0 ≡ ok id
    → db.faults ≡ []
    → now ≤ expires_at
    → (i : Invite) × ((consume_invite now hash
          (create_invite scope_type scope_id hash expires_at single_use metadata db).1).0
        ≡ ok i)
      × (i.id ≡ id)
      × (i.scope_type ≡ scope_type)
      × (i.scope_id ≡ scope_id)
      × (i.metadata ≡ metadata)
unfolding consume_invite
consume-create_invite scope_type scope_id hash expires_at now single_use metadata db id h clean
      valid =
    let i = new_invite id db.now scope_type scope_id hash expires_at single_use metadata in
    let (created, served_too) =
      create_invite-ok scope_type scope_id hash expires_at single_use metadata db id h clean in
    let (consumed, spotless) =
      consume_body-served now hash
        (served (create_invite scope_type scope_id hash expires_at single_use metadata db).1) i
        (rw served_too) created (new_invite-unspent now i refl refl valid) in
    (
      i,
      transaction-served (consume_body now hash) _ served_too consumed spotless,
      refl,
      refl,
      refl,
      refl,
    )

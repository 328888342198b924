-- ===== src/Ceph/ConnPool/Methods.antt =====
-- Each method keeps the counts in step with the references.
use Prim.Native.String.{String}
use ceph_volsync_plugin.Base.{
  ℕ, ◌-◌, ◌<◌, ◌≡◌, ◌≢◌, refl, sym, ap, ◌∙◌, ◌⊎◌, inl, inr, Bool, true, false, ◌&&◌, List, [], ◌∷◌,
  ◌++◌, All, All-append, Option, none, some, Bool-cases, ltb, ◌==◌, arith,
}
use ceph_volsync_plugin.Base.Int.{pos, ◌+ℤ◌, ◌-ℤ◌}
use ceph_volsync_plugin.Pipeline.Mem.Wake.{pos-add}
use ceph_volsync_plugin.Pipeline.Mem.Session.{pos-sub}
use ceph_volsync_plugin.Ceph.ConnPool.{
  ConnEntry, ConnPool, same_key, get, put, get_conn, get_shared, keep_or_drop, get_new, update,
  copy_conn, put_conn, no_users, expired, collect,
}
use ceph_volsync_plugin.Ceph.ConnPool.Users.{
  InPool, Absent, Distinct, Counted, more, less, Counts, Counted-other, more-other, less-other,
  more_self, less_self, update-Distinct, update-InPool, update-Counted,
}

more-le : (c d : ℕ) (refs : ℕ → ℕ) → 0 < more c refs d → (d ≡ c) ⊎ (0 < refs d)
more-le c d refs h = ground arith

less-le : (c d : ℕ) (refs : ℕ → ℕ) → 0 < less c refs d → 0 < refs d
less-le c d refs h = ground arith

pub put-Counts :
    (refs : ℕ → ℕ) (c : ℕ) (p : ConnPool)
    → 0 < refs c
    → Counts refs p
    → Counts (less c refs) (put_conn c p)
unfolding put_conn
put-Counts refs c p h k = record {
  counted =
      update-Counted put (λ e. refl) refs (less c refs) c p.conns (less-other c refs)
        (λ e u.
          ap (λ z. z -ℤ pos 1) u
          ∙ pos-sub (refs c) 1 (omega arith)
          ∙ ap pos (sym (less_self c refs)))
        k.distinct k.counted;
  distinct = update-Distinct put (λ e. refl) c p.conns k.distinct;
  present = λ d l. update-InPool put (λ e. refl) c d p.conns (k.present d (less-le c d refs l));
}

-- One more reference to a connection of the pool.
pub get-Counts :
    (refs : ℕ → ℕ) (c now : ℕ) (p : ConnPool)
    → InPool c p.conns
    → Counts refs p
    → Counts (more c refs) (copy_conn now c p)
unfolding copy_conn
get-Counts refs c now p h k = record {
  counted =
      update-Counted (get now) (λ e. refl) refs (more c refs) c p.conns (more-other c refs)
        (λ e u. ap (λ z. z +ℤ pos 1) u ∙ pos-add (refs c) 1 ∙ ap pos (sym (more_self c refs)))
        k.distinct k.counted;
  distinct = update-Distinct (get now) (λ e. refl) c p.conns k.distinct;
  present = λ d l. elim (more-le c d refs l) [
    | inl e ↦ rw e (update-InPool (get now) (λ e. refl) c c p.conns h)
    | inr m ↦ update-InPool (get now) (λ e. refl) c d p.conns (k.present d m)
  ];
}

InPool-Absent : (c d : ℕ) (es : List ConnEntry) → InPool c es → Absent d es → d ≢ c
InPool-Absent c d [] x a = absurd x
InPool-Absent c d (e ∷ es) (inl h) a = λ g. a.0 (h ∙ sym g)
InPool-Absent c d (e ∷ es) (inr h) a = InPool-Absent c d es h a.1

unequal : (a c : ℕ) → a ≢ c → (a == c) ≡ false
unequal a c h = ground arith

equal : (a : ℕ) → (a == a) ≡ true
equal a = ground arith

-- A look-up by the key is an update of the connection found.
abbrev Found : ℕ → List ConnEntry → List ConnEntry × Option ℕ → Type 0
Found now es r = (r ≡ (es, none)) ⊎ ((c : ℕ) × InPool c es × (r ≡ (update (get now) c es, some c)))

get_conn-Found :
    (unique : String) (now : ℕ) (es : List ConnEntry)
    → Distinct es
    → Found now es (get_conn unique now es)
unfolding get_conn update
get_conn-Found unique now [] d = inl refl
get_conn-Found unique now (e ∷ es) d = elim (Bool-cases (same_key e.key unique)) [
  | inl h ↦ inr (e.conn, inl refl, simp (h, equal e.conn) refl)
  | inr h ↦ elim (get_conn-Found unique now es d.1) [
    | inl g ↦ inl (simp (h, g) refl)
    | inr (c, i, g) ↦
        inr (c, inr i, simp (h, g, unequal e.conn c (InPool-Absent c e.conn es i d.0)) refl)
  ]
]

-- The references after a look-up.
abbrev pub with_found : Option ℕ → (ℕ → ℕ) → ℕ → ℕ
with_found none refs = refs
with_found (some c) refs = more c refs

-- The first part of Get finds a connection of the pool and counts one user more, or changes
-- nothing.
pub get_shared-Counts :
    (refs : ℕ → ℕ) (unique : String) (now : ℕ) (p : ConnPool)
    → Counts refs p
    → let (q, found) = get_shared unique now p in Counts (with_found found refs) q
unfolding get_shared
get_shared-Counts refs unique now p k = elim (get_conn-Found unique now p.conns k.distinct) [
  | inl e ↦ rw (e, get_conn) k
  | inr (c, i, e) ↦ rw (e, get_conn) (unfold copy_conn in get-Counts refs c now p i k)
]

Distinct-snoc :
    (x : ConnEntry) (es : List ConnEntry) → Absent x.conn es → Distinct es → Distinct (es ++ x ∷ [])
Distinct-snoc x [] a d = (tt, tt)
Distinct-snoc x (e ∷ es) a d = (
  All-append (λ f. f.conn ≢ e.conn) es (x ∷ []) d.0 ((λ g. a.0 (sym g)), tt),
  Distinct-snoc x es a.1 d.1,
)

InPool-snoc : (c : ℕ) (x : ConnEntry) (es : List ConnEntry) → InPool c es → InPool c (es ++ x ∷ [])
InPool-snoc c x [] h = absurd h
InPool-snoc c x (e ∷ es) (inl h) = inl h
InPool-snoc c x (e ∷ es) (inr h) = inr (InPool-snoc c x es h)

InPool-last : (x : ConnEntry) (es : List ConnEntry) → InPool x.conn (es ++ x ∷ [])
InPool-last x [] = inl refl
InPool-last x (e ∷ es) = inr (InPool-last x es)

pub fresh-Counts :
    (refs : ℕ → ℕ) (unique : String) (now c : ℕ) (p : ConnPool) (down : List ℕ)
    → Absent c p.conns
    → refs c ≡ 0
    → Counts refs p
    → Counts (more c refs) (record {
      conns = p.conns ++ record { key = unique; conn = c; last_used = now; users = pos 1 } ∷ [];
      shut_down = down;
    })
fresh-Counts refs unique now c p down a z k =
    let x : ConnEntry = record { key = unique; conn = c; last_used = now; users = pos 1 } in
    record {
      counted =
          All-append (λ e. e.users ≡ pos (more c refs e.conn)) p.conns (x ∷ [])
            (Counted-other refs (more c refs) c p.conns (more-other c refs) a k.counted)
            (ap pos (omega (arith, more_self c refs, z)), tt);
      distinct = Distinct-snoc x p.conns a k.distinct;
      present = λ d l. elim (more-le c d refs l) [
        | inl e ↦ rw e (InPool-last x p.conns)
        | inr m ↦ InPool-snoc d x p.conns (k.present d m)
      ];
    }

pub down-Counts :
    (refs : ℕ → ℕ) (p : ConnPool) (down : List ℕ)
    → Counts refs p
    → Counts refs (record p { shut_down = down })
down-Counts refs p down k = record {
  counted = k.counted;
  distinct = k.distinct;
  present = k.present;
}

-- The second part of Get counts one user more of the connection that it returns, be it the new one
-- or that of a faster Get.
pub get_new-Counts :
    (refs : ℕ → ℕ) (unique : String) (now c : ℕ) (p : ConnPool)
    → Absent c p.conns
    → refs c ≡ 0
    → Counts refs p
    → let (q, got) = get_new unique now c p in Counts (more got refs) q
unfolding get_new
get_new-Counts refs unique now c p a z k =
    kept (get_shared unique now p) (get_shared-Counts refs unique now p k)
  where
    kept :
        (r : ConnPool × Option ℕ)
        → Counts (with_found r.1 refs) r.0
        → Counts (more (keep_or_drop unique now c p r).1 refs) (keep_or_drop unique now c p r).0
    kept (q, none) h = fresh-Counts refs unique now c p p.shut_down a z k
    kept (q, some old) h = down-Counts (more old refs) q (c ∷ q.shut_down) h

collect-Absent :
    (now expiry c : ℕ) (es : List ConnEntry) → Absent c es → Absent c (collect now expiry es).0
unfolding collect
collect-Absent now expiry c [] a = tt
collect-Absent now expiry c (e ∷ es) a = elim (Bool-cases (expired now expiry e)) [
  | inl h ↦ rw h (collect-Absent now expiry c es a.1)
  | inr h ↦ rw h (a.0, collect-Absent now expiry c es a.1)
]

unused :
    (refs : ℕ → ℕ) (e : ConnEntry) (b : Bool)
    → no_users e.users && b ≡ true
    → e.users ≡ pos (refs e.conn)
    → refs e.conn ≡ 0
unused refs e b h u = used (refs e.conn) b (rw u at h)
  where
    used : (n : ℕ) (b : Bool) → no_users (pos n) && b ≡ true → n ≡ 0
    used n b h = ground arith

-- What gc leaves, and what it shuts down.
pub collect-Counts :
    (refs : ℕ → ℕ) (now expiry : ℕ) (es : List ConnEntry)
    → Counted refs es
    → Distinct es
    → let (kept, dropped) = collect now expiry es in
      Counted refs kept
      × Distinct kept
      × ((c : ℕ) → 0 < refs c → InPool c es → InPool c kept)
      × All (λ c. refs c ≡ 0) dropped
unfolding collect
collect-Counts refs now expiry [] k d = (tt, tt, (λ c l h. h), tt)
collect-Counts refs now expiry (e ∷ es) k d =
    let (counted, distinct, present, none_used) = collect-Counts refs now expiry es k.1 d.1 in
    elim (Bool-cases (expired now expiry e)) [
      | inl h ↦
          let zero_refs = unused refs e (ltb expiry (now - e.last_used)) h k.0 in
          rw h (
            counted,
            distinct,
            (λ c l i. elim i [
              | inl g ↦ absurd (omega (arith, ap refs g, zero_refs))
              | inr g ↦ present c l g
            ]),
            (zero_refs, none_used),
          )
      | inr h ↦ rw h (
        (k.0, counted),
        (collect-Absent now expiry e.conn es d.0, distinct),
        (λ c l i. elim i [ inl g ↦ inl g | inr g ↦ inr (present c l g) ]),
        none_used,
      )
    ]

-- ===== src/Redis/Table.antt =====
-- packages/api/src/db/redis.ts: a table with times to live, which meets the interface of Redis.
use self_rss.Prelude.{
  ℕ, ◌+◌, ◌≤◌, ◌≡◌, refl, ◌∙◌, inl, inr, Bool, true, false, Option, none, some, arith, ltb, ◌==◌,
  ==_refl, if◌then◌else◌, Bool-cases,
}
use self_rss.Redis.{Redis}

-- The value of a key, and when it ends.
abbrev pub Entries : Type 0
Entries = ℕ → Option (ℕ × Option ℕ)

abbrev pub alive : ℕ → Option (ℕ × Option ℕ) → Option ℕ
alive t none = none
alive t (some (v, none)) = some v
alive t (some (v, some end)) = if ltb t end then some v else none

abbrev pub put : ℕ → Option (ℕ × Option ℕ) → Entries → Entries
put key entry s k = if k == key then entry else s k

abbrev pub set_if_free : ℕ → ℕ → ℕ → Option ℕ → ℕ → Entries → Entries × Bool
set_if_free key value ttl (some v) now s = (s, false)
set_if_free key value ttl none now s = (put key (some (value, some (now + ttl))) s, true)

abbrev pub with_end : ℕ → Option ℕ → ℕ → Entries → Entries
with_end key none end s = s
with_end key (some v) end s = put key (some (v, some end)) s

abbrev pub end_of : Option (ℕ × Option ℕ) → Option ℕ
end_of none = none
end_of (some (v, end)) = end

abbrev pub add_one : ℕ → Option ℕ → Entries → Entries × ℕ
add_one key none s = (put key (some (1, none)) s, 1)
add_one key (some v) s = (put key (some (v + 1, end_of (s key))) s, v + 1)

abbrev pub get : ℕ → ℕ → Entries → Option ℕ
get t k s = alive t (s k)

pub stays_free :
    (now t : ℕ) (o : Option (ℕ × Option ℕ)) → alive now o ≡ none → now ≤ t → alive t o ≡ none
stays_free now t none h le = refl
stays_free now t (some (v, none)) h le = cc
stays_free now t (some (v, some end)) h le = ground arith

pub read_put :
    (t k key : ℕ) (entry : Option (ℕ × Option ℕ)) (s : Entries)
    → get t k (put key entry s) ≡ (if k == key then alive t entry else get t k s)
read_put t k key entry s = elim (Bool-cases (k == key)) [ inl e ↦ rw e refl | inr e ↦ rw e refl ]

pub incremented :
    (now t v w : ℕ) (o : Option (ℕ × Option ℕ))
    → alive now o ≡ some v
    → alive t o ≡ some w
    → alive t (some (v + 1, end_of o)) ≡ some (w + 1)
incremented now t v w none h k = cc
incremented now t v w (some (x, none)) h k = ground arith
incremented now t v w (some (x, some end)) h k = ground arith

pub first_count :
    (now key t : ℕ) (s : Entries)
    → get now key s ≡ none
    → get t key (add_one key (get now key s) s).0 ≡ some 1
first_count now key t s h = rw h (read_put t key key (some (1, none)) s ∙ rw (==_refl key) refl)

pub next_count :
    (now key t : ℕ) (s : Entries) {v w : ℕ}
    → get now key s ≡ some v
    → get t key s ≡ some w
    → get t key (add_one key (get now key s) s).0 ≡ some (w + 1)
next_count now key t s {v} {w} h k = rw h (
    read_put t key key (some (v + 1, end_of (s key))) s
    ∙ rw (==_refl key) (incremented now t v w (s key) h k))

abbrev pub table : Redis
table = record {
  Store = Entries;
  get = get;
  set_nx = λ now key value ttl s. set_if_free key value ttl (get now key s) now s;
  expire = λ now key ttl s. with_end key (get now key s) (now + ttl) s;
  del = λ now key s. put key none s;
  incr = λ now key s. add_one key (get now key s) s;
  get_free = λ now t key s h le. stays_free now t (s key) h le;
  set_nx_taken = λ now key value ttl s h. rw h refl;
  set_nx_done = λ now key value ttl s h. rw h refl;
  get-set_nx =
      λ now key value ttl t k s h le. rw h (read_put t k key (some (value, some (now + ttl))) s);
  get-expire = λ now key ttl t k s {v} h le. rw h (read_put t k key (some (v, some (now + ttl))) s);
  get-del = λ now key t k s le. read_put t k key none s;
  incr_absent = λ now key s h. rw h refl;
  incr_present = λ now key s h. rw h refl;
  get-incr_absent = λ now key t s h le. first_count now key t s h;
  get-incr_present = λ now key t s {v} {w} h le k. next_count now key t s h k;
}

-- ===== src/Articles/State/Register.antt =====
-- packages/api/src/repositories/article-state.persistence.ts: for a client the state of an article is a
-- register with a revision.
use mathlib.Core.Path.{ap₂}
use self_rss.Prelude.{
  ℕ, ◌≡◌, refl, sym, ap, ◌∙◌, inl, inr, Bool, true, false, ◌&&◌, Option, none, some, arith, ◌==◌,
  if◌then◌else◌, find, Bool-cases,
}
use self_rss.Prelude.Text.{Text}
use self_rss.Prelude.Upsert.{
  any-upsert, any-upsert_other, any-select_none, any-select_other, find-upsert, find-upsert_other,
}
use self_rss.Articles.State.{
  Kind, Tables, UserState, same_kind, read_of, save_of, state_of, current_state, current_revision,
  revision_of, set_revision, fresh_state, write_state, write_revision,
}

pub record Cell : Type 0 where
  pub state : Bool
  pub revision : ℕ

-- What a user sees of an article.
abbrev pub view : Kind → ℕ → ℕ → Tables → Cell
view kind user_id article_id t = record {
  state = current_state kind user_id article_id t;
  revision = current_revision kind user_id article_id t;
}

abbrev pub same_cell : Kind → Kind → ℕ → ℕ → ℕ → ℕ → Bool
same_cell kind k user_id u article_id a = same_kind kind k && (u == user_id && a == article_id)

-- Two keys of a row are apart, or the same.
pub row_apart :
    (u user_id a article_id x y : ℕ)
    → (u == user_id && a == article_id) ≡ false
    → (x == u && y == a) ≡ true
    → (x == user_id && y == article_id) ≡ false
row_apart u user_id a article_id x y ne h = ground arith

pub key_same :
    (u user_id a article_id : ℕ)
    → (u == user_id && a == article_id) ≡ true
    → (u ≡ user_id) × (a ≡ article_id)
key_same u user_id a article_id h = (ground arith, ground arith)

key_refl : (u a : ℕ) → (u == u && a == a) ≡ true
key_refl u a = ground arith

module _ (user_id article_id : ℕ) (source : Text) (now : ℕ) (t : Tables) where
  written_here :
      (kind : Kind) (desired : Bool)
      → current_state kind user_id article_id
          (write_state kind user_id article_id desired source now t)
        ≡ desired
  unfolding current_state write_state
  written_here Kind.read true =
      any-upsert (read_of user_id article_id) _ _ (λ x. refl) (key_refl user_id article_id) t.reads
  written_here Kind.read false = any-select_none (read_of user_id article_id) t.reads
  written_here Kind.saved true =
      any-upsert (save_of user_id article_id) _ _ (λ x. refl) (key_refl user_id article_id) t.saves
  written_here Kind.saved false = any-select_none (save_of user_id article_id) t.saves

  module _ (u a : ℕ) (ne : (u == user_id && a == article_id) ≡ false) where
    other_key : (user_id == u && article_id == a) ≡ false
    other_key = ground arith

    written_other :
        (kind k : Kind) (desired : Bool)
        → current_state k u a (write_state kind user_id article_id desired source now t)
          ≡ current_state k u a t
    unfolding current_state write_state
    written_other Kind.read Kind.read true =
        any-upsert_other (read_of u a) (read_of user_id article_id)
          (λ x h. row_apart u user_id a article_id x.user_id x.article_id ne h) _ _ (λ x. refl)
          other_key t.reads
    written_other Kind.read Kind.read false =
        any-select_other (read_of u a) (read_of user_id article_id)
          (λ x h. row_apart u user_id a article_id x.user_id x.article_id ne h) t.reads
    written_other Kind.saved Kind.saved true =
        any-upsert_other (save_of u a) (save_of user_id article_id)
          (λ x h. row_apart u user_id a article_id x.user_id x.article_id ne h) _ _ (λ x. refl)
          other_key t.saves
    written_other Kind.saved Kind.saved false =
        any-select_other (save_of u a) (save_of user_id article_id)
          (λ x h. row_apart u user_id a article_id x.user_id x.article_id ne h) t.saves
    written_other Kind.read Kind.saved true = refl
    written_other Kind.read Kind.saved false = refl
    written_other Kind.saved Kind.read true = refl
    written_other Kind.saved Kind.read false = refl

    revision_other :
        (kind k : Kind) (revision : ℕ)
        → current_revision k u a (write_revision kind user_id article_id revision now t)
          ≡ current_revision k u a t
    unfolding current_revision write_revision
    revision_other kind k revision =
        ap (λ o. elim o [ none ↦ 0 | some r ↦ revision_of k r ])
          (find-upsert_other (state_of u a) (state_of user_id article_id)
            (λ x h. row_apart u user_id a article_id x.user_id x.article_id ne h)
            (set_revision kind revision now)
            (set_revision kind revision now (fresh_state user_id article_id now)) (λ x. kept kind x)
            (fresh kind) t.states)
      where
        kept :
            (kind : Kind) (x : UserState)
            → state_of u a (set_revision kind revision now x) ≡ state_of u a x
        kept Kind.read x = refl
        kept Kind.saved x = refl

        fresh :
            (kind : Kind)
            → state_of u a (set_revision kind revision now (fresh_state user_id article_id now))
              ≡ false
        fresh Kind.read = other_key
        fresh Kind.saved = other_key

  revision_here :
      (kind k : Kind) (revision : ℕ)
      → current_revision k user_id article_id
          (write_revision kind user_id article_id revision now t)
        ≡ (if same_kind kind k then revision else current_revision k user_id article_id t)
  unfolding current_revision write_revision
  revision_here kind k revision =
      ap (λ o. elim o [ none ↦ 0 | some r ↦ revision_of k r ])
        (find-upsert (state_of user_id article_id) (set_revision kind revision now)
          (set_revision kind revision now (fresh_state user_id article_id now)) (λ x. kept kind x)
          (fresh kind) t.states)
      ∙ column kind k (find (state_of user_id article_id) t.states)
    where
      kept :
          (kind : Kind) (x : UserState)
          → state_of user_id article_id (set_revision kind revision now x)
            ≡ state_of user_id article_id x
      kept Kind.read x = refl
      kept Kind.saved x = refl

      fresh :
          (kind : Kind)
          → state_of user_id article_id
              (set_revision kind revision now (fresh_state user_id article_id now))
            ≡ true
      fresh Kind.read = key_refl user_id article_id
      fresh Kind.saved = key_refl user_id article_id

      column :
          (kind k : Kind) (o : Option UserState)
          → revision_of k (elim o [
            | none ↦ set_revision kind revision now (fresh_state user_id article_id now)
            | some x ↦ set_revision kind revision now x
          ])
            ≡ (if same_kind kind k
                then revision
                else elim o [ none ↦ 0 | some r ↦ revision_of k r ])
      column Kind.read Kind.read none = refl
      column Kind.read Kind.saved none = refl
      column Kind.saved Kind.read none = refl
      column Kind.saved Kind.saved none = refl
      column Kind.read Kind.read (some x) = refl
      column Kind.read Kind.saved (some x) = refl
      column Kind.saved Kind.read (some x) = refl
      column Kind.saved Kind.saved (some x) = refl

  written_kind :
      (kind k : Kind) (desired : Bool)
      → current_state k user_id article_id
          (write_state kind user_id article_id desired source now t)
        ≡ (if same_kind kind k then desired else current_state k user_id article_id t)
  unfolding current_state write_state
  written_kind Kind.read Kind.read desired = written_here Kind.read desired
  written_kind Kind.saved Kind.saved desired = written_here Kind.saved desired
  written_kind Kind.read Kind.saved true = refl
  written_kind Kind.read Kind.saved false = refl
  written_kind Kind.saved Kind.read true = refl
  written_kind Kind.saved Kind.read false = refl

  state_kept :
      (kind : Kind) (revision : ℕ) (k : Kind) (u a : ℕ)
      → current_state k u a (write_revision kind user_id article_id revision now t)
        ≡ current_state k u a t
  unfolding current_state write_revision
  state_kept kind revision Kind.read u a = refl
  state_kept kind revision Kind.saved u a = refl

  revision_kept :
      (kind : Kind) (desired : Bool) (k : Kind) (u a : ℕ)
      → current_revision k u a (write_state kind user_id article_id desired source now t)
        ≡ current_revision k u a t
  unfolding current_revision write_state
  revision_kept Kind.read true k u a = refl
  revision_kept Kind.read false k u a = refl
  revision_kept Kind.saved true k u a = refl
  revision_kept Kind.saved false k u a = refl

both :
    (b c : Bool) (d s : Bool) (r n : ℕ)
    → c ≡ true
    → (let x : Cell = record { state = if b then d else s; revision = if b then r else n } in x)
      ≡ (if b && c then record { state = d; revision = r } else record { state = s; revision = n })
both true c d s r n h = rw h refl
both false c d s r n h = refl

neither : (b c : Bool) (x y : Cell) → c ≡ false → (if b && c then x else y) ≡ y
neither true c x y h = rw h refl
neither false c x y h = refl

-- A change writes the one cell.
pub view-write :
    (user_id article_id : ℕ) (source : Text) (now : ℕ) (t : Tables) (kind k : Kind) (desired : Bool)
    (revision u a : ℕ)
    → view k u a (
        write_revision kind user_id article_id revision now
          (write_state kind user_id article_id desired source now t))
      ≡ (if same_cell kind k user_id u article_id a
          then record { state = desired; revision = revision }
          else view k u a t)
view-write user_id article_id source now t kind k desired revision u a =
    let t' = write_state kind user_id article_id desired source now t in
    elim (Bool-cases (u == user_id && a == article_id)) [
      | inr ne ↦
          ap₂ (λ s r. record { state = s; revision = r })
            (state_kept user_id article_id source now t' kind revision k u a
              ∙ written_other user_id article_id source now t u a ne kind k desired)
            (revision_other user_id article_id source now t' u a ne kind k revision
              ∙ revision_kept user_id article_id source now t kind desired k u a)
          ∙ sym (neither (same_kind kind k) (u == user_id && a == article_id) _ _ ne)
      | inl e ↦
          let (eu, ea) = key_same u user_id a article_id e in
          rw (eu, ea)
            (ap₂ (λ s r. record { state = s; revision = r })
                (state_kept user_id article_id source now t' kind revision k user_id article_id
                  ∙ written_kind user_id article_id source now t kind k desired)
                (revision_here user_id article_id source now t' kind k revision
                  ∙ ap (λ r. if same_kind kind k then revision else r)
                      (revision_kept user_id article_id source now t kind desired k user_id
                        article_id))
              ∙ both (same_kind kind k) (user_id == user_id && article_id == article_id) desired _
                  revision _ (key_refl user_id article_id))
    ]

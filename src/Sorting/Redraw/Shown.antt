-- ===== src/Sorting/Redraw/Shown.antt =====
-- web/app.js: what the tables in the document show.
use copilot_api_dashboard.Base.{
  ℕ, Bool, true, false, Option, none, some, ◌&&◌, not, ◌≡◌, inl, inr, refl, arith, ltb, sym, subst,
  if◌then◌else◌, Bool-cases, Option-cases, ap, ◌∙◌,
}
use copilot_api_dashboard.Sorting.{Sort}
use copilot_api_dashboard.Sorting.Headers.{is_disabled}
use copilot_api_dashboard.Sorting.Redraw.{
  TableId, accounts, models, days, last_column, same_id, put, Element, View, Tables, focus_in, blur,
  replace, restore, redraw_table, draw_table, names_in, write_table, render_tables, is_there,
  has_button,
}

pub same_id-eq : (i j : TableId) → same_id i j ≡ true → i ≡ j
same_id-eq accounts accounts h = refl
same_id-eq models models h = refl
same_id-eq days days h = refl
same_id-eq i j h = cc

pub same_id_self : (i : TableId) → same_id i i ≡ true
same_id_self accounts = refl
same_id_self models = refl
same_id_self days = refl

module _ {κ} {M : Type 0} {W : Type κ} (origin : W) where
  -- A table that stands in the document is what its view writes for its sort.
  abbrev pub Shows : Option (View M) → Option (Element M W) → Bool → Sort → Type 0
  Shows v none names s = Unit
  Shows none (some e) names s = ⊥
  Shows (some v) (some e) names s = e.markup ≡ v.write names s

  -- The table stands in the document as its view writes it now, or not at all.
  abbrev pub IsShown : Tables M W → TableId → Type 0
  IsShown t i = Shows (t.views i) (t.elements i) (names_in i t.show_names) (t.sorts i)

  pub record AllShown (t : Tables M W) : Type κ where
    pub shown : (i : TableId) → IsShown t i
    pub named : t.has_aliases ≡ true → is_there accounts t ≡ true

  -- The table as `redraw_table` leaves it.
  abbrev pub redrawn : TableId → Element M W → View M → Tables M W → Tables M W
  redrawn i e v t =
      restore origin i e.scroll_left t.focus
        (replace origin i (some (v.write (names_in i t.show_names) (t.sorts i))) t)

  pub redraw_table-some :
      (i : TableId) (t : Tables M W) (e : Element M W) (v : View M)
      → t.elements i ≡ some e
      → t.views i ≡ some v
      → redraw_table origin i t ≡ some (redrawn i e v t)
  unfolding redraw_table
  redraw_table-some i t e v h k = ground arith

  -- The new element holds what the view writes, at the old position; other elements stay.
  pub redrawn-elements :
      (i j : TableId) (e : Element M W) (v : View M) (t : Tables M W)
      → (redrawn i e v t).elements j ≡ (
          if same_id i j
          then some (record {
            markup = v.write (names_in i t.show_names) (t.sorts i);
            scroll_left = e.scroll_left;
          })
          else t.elements j)
  redrawn-elements i j e v t = elim (Bool-cases (same_id i j)) [
    | inl h ↦ rw (put, h, same_id_self i)
    | inr h ↦ rw (put, h)
  ]

  pub redrawn-focus :
      (i : TableId) (e : Element M W) (v : View M) (t : Tables M W)
      → (redrawn i e v t).focus ≡ t.focus
  redrawn-focus i e v t = elim (Bool-cases (focus_in i t.focus)) [
    | inl h ↦ rw (blur, h)
    | inr h ↦ rw (blur, h)
  ]

  pub redrawn-AllShown :
      (i : TableId) (e : Element M W) (v : View M) (t : Tables M W)
      → t.views i ≡ some v
      → ((j : TableId) → same_id i j ≡ false → IsShown t j)
      → (t.has_aliases ≡ true → is_there accounts t ≡ true)
      → AllShown (redrawn i e v t)
  redrawn-AllShown i e v t k h named = record {
    shown = λ j.
        subst (λ o. Shows (t.views j) o (names_in j t.show_names) (t.sorts j))
          (sym (redrawn-elements i j e v t)) (each j);
    named = λ p.
        subst (λ o. elim o as (λ x. Bool) [ none ↦ false | some x ↦ true ] ≡ true)
          (sym (redrawn-elements i accounts e v t)) (there p);
  }
    where
      each :
          (j : TableId)
          → Shows
              (t.views j)
              (if same_id i j
                then some (record {
                  markup = v.write (names_in i t.show_names) (t.sorts i);
                  scroll_left = e.scroll_left;
                })
                else t.elements j)
              (names_in j t.show_names)
              (t.sorts j)
      each j = elim (Bool-cases (same_id i j)) [
        | inl p ↦ rw p (
            subst
              (λ l.
                Shows (t.views l)
                  (some (record {
                    markup = v.write (names_in i t.show_names) (t.sorts i);
                    scroll_left = e.scroll_left;
                  }))
                  (names_in l t.show_names) (t.sorts l))
              (same_id-eq i j p) (rw k refl))
        | inr p ↦ rw p (h j p)
      ]

      there :
          t.has_aliases ≡ true
          → elim (if same_id i accounts
                then some (record {
                  markup = v.write (names_in i t.show_names) (t.sorts i);
                  scroll_left = e.scroll_left;
                })
                else t.elements accounts)
              as (λ x. Bool) [ none ↦ false | some x ↦ true ]
            ≡ true
      there p = elim (Bool-cases (same_id i accounts)) [ inl q ↦ rw q | inr q ↦ rw q (named p) ]

  -- What a render function has written is shown, and other tables stay as they are.
  write_table_self :
      (i : TableId) (view : Option (View M)) (aliases : Bool) (t : Tables M W)
      → IsShown (write_table origin i view aliases t) i
  unfolding write_table draw_table
  write_table_self i none aliases t = rw (put, same_id_self i) tt
  write_table_self i (some view) aliases t = rw (put, same_id_self i)

  write_table_other :
      (i j : TableId) (view : Option (View M)) (aliases : Bool) (t : Tables M W)
      → same_id i j ≡ false
      → IsShown t j
      → IsShown (write_table origin i view aliases t) j
  unfolding write_table draw_table
  write_table_other i j none aliases t p h = rw (put, p) h
  write_table_other i j (some view) aliases t p h = rw (put, p) h

  write_table_named :
      (i : TableId) (view : Option (View M)) (aliases : Bool) (t : Tables M W)
      → (t.has_aliases ≡ true → is_there accounts t ≡ true)
      → (write_table origin i view aliases t).has_aliases ≡ true
      → is_there accounts (write_table origin i view aliases t) ≡ true
  unfolding write_table draw_table
  write_table_named accounts none aliases t h p = cc
  write_table_named accounts (some view) aliases t h p = refl
  write_table_named models none aliases t h p = h p
  write_table_named models (some view) aliases t h p = h p
  write_table_named days none aliases t h p = h p
  write_table_named days (some view) aliases t h p = h p

  pub write_table-AllShown :
      (i : TableId) (view : Option (View M)) (aliases : Bool) (t : Tables M W)
      → AllShown t
      → AllShown (write_table origin i view aliases t)
  write_table-AllShown i view aliases t s = record {
    shown = λ j. elim (Bool-cases (same_id i j)) [
      | inl p ↦
          subst (IsShown (write_table origin i view aliases t)) (same_id-eq i j p)
            (write_table_self i view aliases t)
      | inr p ↦ write_table_other i j view aliases t p (s.shown j)
    ];
    named = write_table_named i view aliases t s.named;
  }

  -- After `renderDashboard` each table is one that has been written, whatever was there.
  pub render_tables-AllShown :
      (in_days in_models in_accounts : Option (View M)) (aliases : Bool) (t : Tables M W)
      → AllShown t
      → AllShown (render_tables origin in_days in_models in_accounts aliases t)
  unfolding render_tables
  render_tables-AllShown in_days in_models in_accounts aliases t s = record {
    shown = each;
    named = write_table_named accounts in_accounts aliases (second) (
        write_table_named models in_models aliases (first)
          (write_table_named days in_days aliases cleared s.named));
  }
    where
      cleared : Tables M W
      cleared = record t { views = λ i. none }

      first : Tables M W
      first = write_table origin days in_days aliases cleared

      second : Tables M W
      second = write_table origin models in_models aliases first

      each : (i : TableId) → IsShown (write_table origin accounts in_accounts aliases second) i
      each accounts = write_table_self accounts in_accounts aliases second
      each models =
          write_table_other accounts models in_accounts aliases second refl
            (write_table_self models in_models aliases first)
      each days = write_table_other accounts days in_accounts aliases second refl (
          write_table_other models days in_models aliases first refl
            (write_table_self days in_days aliases cleared))

  scrolled-Shows :
      (v : Option (View M)) (o : Option (Element M W)) (names : Bool) (sort : Sort) (x : W)
      → Shows v o names sort
      → Shows v (elim o [ none ↦ none | some e ↦ some (record e { scroll_left = x }) ]) names sort
  scrolled-Shows none none names sort x h = h
  scrolled-Shows (some v) none names sort x h = h
  scrolled-Shows none (some e) names sort x h = h
  scrolled-Shows (some v) (some e) names sort x h = h

  unfoldable pub scrolled : TableId → W → Tables M W → TableId → Option (Element M W)
  scrolled i x t =
      put i (elim (t.elements i) [ none ↦ none | some e ↦ some (record e { scroll_left = x }) ])
        t.elements

  scrolled-there :
      (o : Option (Element M W)) (x : W)
      → elim o as (λ y. Bool) [ none ↦ false | some y ↦ true ] ≡ true
      → elim (elim o as (λ y. Option (Element M W)) [
        | none ↦ none
        | some e ↦ some (record e { scroll_left = x })
      ])
          as (λ y. Bool) [ none ↦ false | some y ↦ true ]
        ≡ true
  scrolled-there none x h = h
  scrolled-there (some e) x h = h

  pub scroll-AllShown :
      (i : TableId) (x : W) (t : Tables M W)
      → AllShown t
      → AllShown (record t { elements = scrolled i x t })
  unfolding scrolled
  scroll-AllShown i x t s = record { shown = each; named = λ p. there i (s.named p) }
    where
      each :
          (j : TableId) → Shows (t.views j) (scrolled i x t j) (names_in j t.show_names) (t.sorts j)
      each j = elim (Bool-cases (same_id i j)) [
        | inl p ↦
            subst (λ l. Shows (t.views l) (scrolled i x t l) (names_in l t.show_names) (t.sorts l))
              (same_id-eq i j p)
              (rw (put, same_id_self i)
                (scrolled-Shows (t.views i) (t.elements i) (names_in i t.show_names) (t.sorts i) x
                  (s.shown i)))
        | inr p ↦ rw (put, p) (s.shown j)
      ]

      there :
          (l : TableId)
          → is_there accounts t ≡ true
          → elim (scrolled l x t accounts) as (λ y. Bool) [ none ↦ false | some y ↦ true ] ≡ true
      there accounts h = scrolled-there (t.elements accounts) x h
      there models h = h
      there days h = h

  pub is_there-some :
      (i : TableId) (t : Tables M W)
      → is_there i t ≡ true
      → (e : Element M W) × (t.elements i ≡ some e)
  is_there-some i t h = elim (Option-cases (t.elements i)) [
    | inl p ↦ cc (rw (is_there, p) at h)
    | inr p ↦ p
  ]

  pub Shows-some :
      (v : Option (View M)) (e : Element M W) (names : Bool) (sort : Sort)
      → Shows v (some e) names sort
      → (w : View M) × (v ≡ some w)
  Shows-some none e names sort h = absurd h
  Shows-some (some w) e names sort h = (w, refl)

  pub has_button-there :
      (i : TableId) (column : ℕ) (t : Tables M W)
      → has_button i column t ≡ true
      → is_there i t ≡ true
  has_button-there i column t h = elim (Option-cases (t.views i)) [
    | inl p ↦ cc (rw (has_button, p) at h)
    | inr (v, p) ↦
        both (is_there i t) (not (ltb (last_column i) column))
          (not (is_disabled v.disabled_cost (last_column i) column)) (rw (has_button, p) at h)
  ]
    where
      both : (a b c : Bool) → (a && b && c) ≡ true → a ≡ true
      both a b c e = ground arith

  abbrev pub scroll_of : Option (Element M W) → Option W
  scroll_of none = none
  scroll_of (some e) = some e.scroll_left

  -- The focus and the positions of all tables are the same.
  abbrev pub SamePlaces : Tables M W → Tables M W → Type κ
  SamePlaces t u =
      (u.focus ≡ t.focus) × ((j : TableId) → scroll_of (u.elements j) ≡ scroll_of (t.elements j))

  pub redrawn-SamePlaces :
      (i : TableId) (e : Element M W) (v : View M) (t : Tables M W)
      → t.elements i ≡ some e
      → SamePlaces t (redrawn i e v t)
  redrawn-SamePlaces i e v t h = (redrawn-focus i e v t, each)
    where
      each : (j : TableId) → scroll_of ((redrawn i e v t).elements j) ≡ scroll_of (t.elements j)
      each j = ap scroll_of (redrawn-elements i j e v t) ∙ elim (Bool-cases (same_id i j)) [
        | inl p ↦ rw p (
            subst (λ l. some e.scroll_left ≡ scroll_of (t.elements l)) (same_id-eq i j p)
              (rw h refl))
        | inr p ↦ rw p
      ]

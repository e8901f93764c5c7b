-- ===== src/Sorting/Redraw/Steps.antt =====
-- web/app.js: the tables in the document after any events.
use copilot_api_dashboard.Base.{
  ◌∙◌, ℕ, not, if◌then◌else◌, Bool-cases, inl, inr, Bool, true, false, none, some, List, [], ◌∷◌,
  ◌&&◌, ◌≡◌, refl, arith, sym, subst, if_elim,
}
use copilot_api_dashboard.Sorting.{Sort, click_header}
use copilot_api_dashboard.Sorting.Redraw.{
  TableId, accounts, models, days, View, same_id, put, Tables, TableEvent, draw, render, names_in,
  click, toggle, scroll, move_focus, redraw_table, is_there, has_button, table_step, table_run,
  no_tables,
}
use copilot_api_dashboard.Sorting.Redraw.Shown.{
  Shows, AllShown, redrawn, redraw_table-some, redrawn-AllShown, write_table-AllShown,
  render_tables-AllShown, scrolled, scroll-AllShown, is_there-some, Shows-some, has_button-there,
  SamePlaces, redrawn-SamePlaces,
}

if_true {ℓ} : {A : Type ℓ} → (a : Bool) (x y : A) → a ≡ true → (if a then x else y) ≡ x
if_true a x y h = rw h refl

both : (a b : Bool) → a ≡ true → b ≡ true → (a && b) ≡ true
both a b h k = ground arith

module _ {κ} {M : Type 0} {W : Type κ} (origin : W) where
  view_of :
      (i : TableId) (t : Tables M W)
      → AllShown origin t
      → is_there i t ≡ true
      → (v : View M) × (t.views i ≡ some v)
  view_of i t s h =
      let (e, p) = is_there-some origin i t h in
      Shows-some origin (t.views i) e (names_in i t.show_names) (t.sorts i) (
        subst (λ o. Shows origin (t.views i) o (names_in i t.show_names) (t.sorts i)) p (s.shown i))

  -- A table that stands in the document can be redrawn: then it is what its view writes for the sort that it
  -- now has, and the positions of all tables and the focus are as before.
  redraw_table-AllShown :
      (i : TableId) (sorts : TableId → Sort) (show_names : Bool) (t : Tables M W)
      → AllShown origin t
      → ((j : TableId)
          → same_id i j ≡ false
          → (sorts j ≡ t.sorts j) × (names_in j show_names ≡ names_in j t.show_names))
      → is_there i t ≡ true
      → (u : Tables M W) × (redraw_table origin i
            (record t { sorts = sorts; show_names = show_names })
          ≡ some u)
        × (AllShown origin u × SamePlaces origin t u × (u.show_names ≡ show_names))
  redraw_table-AllShown i sorts show_names t s same h =
      let (e, p) = is_there-some origin i t h in
      let (v, q) = view_of i t s h in
      let r = record t { sorts = sorts; show_names = show_names } in
      (
        redrawn origin i e v r,
        redraw_table-some origin i r e v p q,
        (
          redrawn-AllShown origin i e v r q
              (λ j d. let (sort, names) = same j d in rw (sort, names) (s.shown j)) s.named,
          redrawn-SamePlaces origin i e v r p,
          refl,
        ),
      )

  -- A click on a column's button draws the table again; a click elsewhere changes nothing.
  click-AllShown :
      (i : TableId) (column : ℕ) (t : Tables M W)
      → AllShown origin t
      → (u : Tables M W) × (table_step origin t (click i column) ≡ some u)
        × (AllShown origin u × SamePlaces origin t u × (u.show_names ≡ t.show_names))
  unfolding table_step
  click-AllShown i column t s =
      if_elim
        (λ o.
          (u : Tables M W) × (o ≡ some u)
          × (AllShown origin u × SamePlaces origin t u × (u.show_names ≡ t.show_names)))
        (has_button i column t)
        (λ p.
          redraw_table-AllShown i (put i (click_header column (t.sorts i)) t.sorts) t.show_names t s
            (λ j d. (rw (put, d), refl)) (has_button-there origin i column t p))
        (λ p. (t, refl, (s, (refl, λ j. refl), refl)))

  -- Where there are display names there is a view of the accounts.
  toggle-AllShown :
      (t : Tables M W)
      → AllShown origin t
      → (u : Tables M W) × (table_step origin t toggle ≡ some u)
        × (AllShown origin u
            × SamePlaces origin t u
            × (u.show_names ≡ (if t.has_aliases then not t.show_names else t.show_names)))
  unfolding table_step
  toggle-AllShown t s = elim (Bool-cases t.has_aliases) [
    | inr e ↦ (t, rw e refl, (s, (refl, λ j. refl), rw e refl))
    | inl e ↦
        let (v, q) = view_of accounts t s (s.named e) in
        let (u, p, (shown, places, names)) =
          redraw_table-AllShown accounts t.sorts (not t.show_names) t s (λ j d. (refl, other j d))
            (s.named e) in
        (
          u,
          if_true (t.has_aliases && elim (t.views accounts) [ none ↦ false | some w ↦ true ]) _ _
                (both t.has_aliases _ e (rw q refl))
              ∙ p,
          (shown, places, names ∙ sym (if_true t.has_aliases (not t.show_names) t.show_names e)),
        )
  ]
    where
      other :
          (j : TableId)
          → same_id accounts j ≡ false
          → names_in j (not t.show_names) ≡ names_in j t.show_names
      other accounts d = cc
      other models d = refl
      other days d = refl

  -- Every step succeeds and leaves every table as its view writes it.
  table_step-AllShown :
      (t : Tables M W) (event : TableEvent M W)
      → AllShown origin t
      → (u : Tables M W) × (table_step origin t event ≡ some u) × AllShown origin u
  unfolding table_step scrolled
  table_step-AllShown t (draw i view aliases) s =
      (_, refl, write_table-AllShown origin i view aliases t s)
  table_step-AllShown t (render in_days in_models in_accounts aliases) s =
      (_, refl, render_tables-AllShown origin in_days in_models in_accounts aliases t s)
  table_step-AllShown t (click i column) s =
      let (u, p, k) = click-AllShown i column t s in (u, p, k.0)
  table_step-AllShown t toggle s = let (u, p, k) = toggle-AllShown t s in (u, p, k.0)
  table_step-AllShown t (scroll i x) s = (_, refl, scroll-AllShown origin i x t s)
  table_step-AllShown t (move_focus focus) s = (
    _,
    refl,
    if_elim (AllShown origin) (elim focus [ none ↦ true | some f ↦ is_there f.0 t ])
        (λ h. record { shown = s.shown; named = s.named }) (λ h. s),
  )

  table_run-AllShown :
      (events : List (TableEvent M W)) (t : Tables M W)
      → AllShown origin t
      → (u : Tables M W) × (table_run origin events t ≡ some u) × AllShown origin u
  unfolding table_run
  table_run-AllShown [] t s = (t, refl, s)
  table_run-AllShown (event ∷ events) t s =
      let (u, p, k) = table_step-AllShown t event s in
      rw (table_run, p) (table_run-AllShown events u k)

  -- From a page without tables, no sequence of renderings of one table or, once all views are forgotten, of the
  -- dashboard, of clicks, presses of the key D, scrolling and moves of the focus makes the script throw. After it
  -- every table in the document is what its view writes for the table's sort and, in the table of the accounts,
  -- for the display of names that is chosen; a click on a header and the key D keep this, the focus and the
  -- position of every table, and of the two only the key changes the choice, if some account has a display name.
  pub table_run_lem :
      (events : List (TableEvent M W))
      → (t : Tables M W) × (table_run origin events no_tables ≡ some t)
        × AllShown origin t
        × ((i : TableId) (column : ℕ)
            → (u : Tables M W) × (table_step origin t (click i column) ≡ some u)
              × (AllShown origin u × SamePlaces origin t u × (u.show_names ≡ t.show_names)))
        × ((u : Tables M W) × (table_step origin t toggle ≡ some u)
            × (AllShown origin u
                × SamePlaces origin t u
                × (u.show_names ≡ (if t.has_aliases then not t.show_names else t.show_names))))
  table_run_lem events =
      let (t, p, s) =
        table_run-AllShown events no_tables (record { shown = λ i. tt; named = λ h. cc }) in
      (t, p, s, λ i column. click-AllShown i column t s, toggle-AllShown t s)

-- ===== src/Dashboard/Runs/Paging.antt =====
-- What the table of web/src/pages/RunListPage.jsx shows after ticks and clicks on "Load more".
use triggerlink.Prelude.{
  ℕ, suc, ◌+◌, ◌*◌, ◌≡◌, refl, sym, ap, ◌∙◌, ◌⊎◌, inl, inr, none, some, List, [], ◌∷◌, ◌++◌, Text,
  arith, take, drop, take-drop, take-nil, take_add, take_empty, drop_add, drop-nil, Option-cases,
}
use triggerlink.Execx.{Host, Thrown}
use triggerlink.Effects.{returned, threw}
use triggerlink.Dashboard.Api.{Fetch, Method, fetch_runs, call}
use triggerlink.Dashboard.Runs.{
  Run, RunPage, RunList, params, runs, last, params_before, poll, load_more,
}

last-none : (rs : List Run) → last rs ≡ none → rs ≡ []
unfolding last
last-none [] e = refl
last-none (r ∷ []) e = absurd (cc)
last-none (r ∷ q ∷ rs) e = absurd (let same = last-none (q ∷ rs) e in cc)

last-some : (rs : List Run) (r : Run) → last rs ≡ some r → (pre : List Run) × (rs ≡ pre ++ r ∷ [])
unfolding last
last-some [] r e = absurd (cc)
last-some (q ∷ []) r e = ([], cc)
last-some (q ∷ p ∷ rs) r e = let (pre, same) = last-some (p ∷ rs) r e in (q ∷ pre, rw same)

-- The platform's side of the list, for the filters of a page: the first runs of `all`, at most `limit`,
-- and at most as many of those that come after the run of a cursor.
pub record IsPaged (host : Host) (encode_query : List (Text × Text) → Text) (all : List Run)
    (limit : ℕ) (s : RunList) (fetch : Fetch RunPage) : Type 0 where
  pub first :
      fetch_runs host encode_query fetch (params s) ≡ returned (record { runs = take limit all })
  pub after :
      (pre : List Run) (r : Run) (post : List Run)
      → all ≡ (pre ++ r ∷ []) ++ post
      → fetch_runs host encode_query fetch (params_before s r)
        ≡ returned (record { runs = take limit post })

-- The platform cannot be reached.
abbrev pub IsDown : Fetch RunPage → Type 0
IsDown fetch = (e : Thrown) × ((method : Method) (url : Text) → fetch method url ≡ threw e)

module _ (host : Host) (encode_query : List (Text × Text) → Text) (all : List Run) (limit : ℕ) where
  -- A page after its first answer, and after further ticks and clicks: the number of those clicks that
  -- were answered, and the page.
  pub data Session : ℕ → RunList → Type 0 where
    first :
        {s : RunList} {fetch : Fetch RunPage}
        → s.extra ≡ []
        → IsPaged host encode_query all limit s fetch
        → Session 0 (poll host encode_query fetch s)
    tick :
        {k : ℕ} {s : RunList} {fetch : Fetch RunPage}
        → Session k s
        → IsPaged host encode_query all limit s fetch ⊎ IsDown fetch
        → Session k (poll host encode_query fetch s)
    more :
        {k : ℕ} {s : RunList} {fetch : Fetch RunPage}
        → Session k s
        → IsPaged host encode_query all limit s fetch
        → Session (suc k) (load_more host encode_query fetch s)
    lost :
        {k : ℕ} {s : RunList} {fetch : Fetch RunPage}
        → Session k s
        → IsDown fetch
        → Session k (load_more host encode_query fetch s)

  record IsListed (k : ℕ) (s : RunList) : Type 0 where
    shown : s.polled.shown ≡ some (record { runs = take limit all })
    extra : s.extra ≡ take (k * limit) (drop limit all)

  runs-IsListed : (k : ℕ) (s : RunList) → IsListed k s → runs s ≡ take (suc k * limit) all
  runs-IsListed k s listed =
      rw (listed.shown, listed.extra)
        (let e : suc k * limit ≡ limit + k * limit = omega arith in
          rw e (sym (take_add limit (k * limit) all)))

  first-IsListed :
      (s : RunList) (fetch : Fetch RunPage)
      → s.extra ≡ []
      → IsPaged host encode_query all limit s fetch
      → IsListed 0 (poll host encode_query fetch s)
  unfolding poll
  first-IsListed s fetch fresh paged =
      let e : 0 * limit ≡ 0 = omega arith in
      record { shown = rw paged.first; extra = rw (fresh, e) }

  poll-IsListed :
      (k : ℕ) (s : RunList) (fetch : Fetch RunPage)
      → IsListed k s
      → IsPaged host encode_query all limit s fetch ⊎ IsDown fetch
      → IsListed k (poll host encode_query fetch s)
  unfolding poll call
  poll-IsListed k s fetch listed (inl paged) = record {
    shown = rw paged.first;
    extra = listed.extra;
  }
  poll-IsListed k s fetch listed (inr (e, down)) = record {
    shown = rw down listed.shown;
    extra = listed.extra;
  }

  drop_page : (k : ℕ) → drop (suc k * limit) all ≡ drop (k * limit) (drop limit all)
  drop_page k =
      let e : suc k * limit ≡ limit + k * limit = omega arith in
      rw e (drop_add limit (k * limit) all)

  -- the further pages after one more
  next_page :
      (k : ℕ) (s : RunList)
      → IsListed k s
      → s.extra ++ take limit (drop (suc k * limit) all) ≡ take (suc k * limit) (drop limit all)
  next_page k s listed =
      let e : suc k * limit ≡ k * limit + limit = omega arith in
      rw (listed.extra, drop_page k, e) (sym (take_add (k * limit) limit (drop limit all)))

  -- Where nothing is shown there is no further page.
  nothing_left :
      (k : ℕ) (s : RunList)
      → IsListed k s
      → runs s ≡ []
      → s.extra ≡ take (suc k * limit) (drop limit all)
  nothing_left k s listed empty =
      elim (take_empty (suc k * limit) all (sym (runs-IsListed k s listed) ∙ empty)) [
        | inl none_asked ↦
            let e : k * limit ≡ 0 = omega (arith, none_asked) in rw (listed.extra, none_asked, e)
        | inr none_there ↦ rw (
          listed.extra,
          none_there,
          drop-nil limit,
          take-nil (k * limit),
          take-nil (suc k * limit),
        )
      ]

  more-IsListed :
      (k : ℕ) (s : RunList) (fetch : Fetch RunPage)
      → IsListed k s
      → IsPaged host encode_query all limit s fetch
      → IsListed (suc k) (load_more host encode_query fetch s)
  unfolding load_more
  more-IsListed k s fetch listed paged = elim (Option-cases (last (runs s))) [
    | inl nothing ↦ record {
      shown = rw nothing listed.shown;
      extra = rw nothing (nothing_left k s listed (last-none (runs s) nothing));
    }
    | inr (r, here) ↦
        let (pre, ends) = last-some (runs s) r here in
        let whole : all ≡ (pre ++ r ∷ []) ++ drop (suc k * limit) all =
          sym (take-drop (suc k * limit) all)
          ∙ ap (λ rs. rs ++ drop (suc k * limit) all) (sym (runs-IsListed k s listed) ∙ ends) in
        let answer = paged.after pre r (drop (suc k * limit) all) whole in
        record {
          shown = rw (here, answer) listed.shown;
          extra = rw (here, answer) (next_page k s listed);
        }
  ]

  lost-IsListed :
      (k : ℕ) (s : RunList) (fetch : Fetch RunPage)
      → IsListed k s
      → IsDown fetch
      → IsListed k (load_more host encode_query fetch s)
  unfolding load_more call
  lost-IsListed k s fetch listed (e, down) = elim (Option-cases (last (runs s))) [
    | inl nothing ↦ record { shown = rw nothing listed.shown; extra = rw nothing listed.extra }
    | inr (r, here) ↦ record {
      shown = rw (here, down) listed.shown;
      extra = rw (here, down) listed.extra;
    }
  ]

  Session-IsListed : {k : ℕ} {s : RunList} → Session k s → IsListed k s
  Session-IsListed (first fresh paged) = first-IsListed _ _ fresh paged
  Session-IsListed (tick before answer) = poll-IsListed _ _ _ (Session-IsListed before) answer
  Session-IsListed (more before paged) = more-IsListed _ _ _ (Session-IsListed before) paged
  Session-IsListed (lost before down) = lost-IsListed _ _ _ (Session-IsListed before) down

-- The table shows the runs of the platform from the first on, without a gap and without a repetition:
-- after `k` answered clicks on "Load more", `k + 1` pages of them, or as many as there are, whichever
-- requests failed between. The platform's list stays as it is, and each answered request has its
-- contract: at most `limit` runs, from the first or after the cursor.
pub runs-take :
    (host : Host) (encode_query : List (Text × Text) → Text) (all : List Run) (limit k : ℕ)
    (s : RunList)
    → Session host encode_query all limit k s
    → runs s ≡ take (suc k * limit) all
runs-take host encode_query all limit k s session =
    runs-IsListed host encode_query all limit k s
      (Session-IsListed host encode_query all limit session)

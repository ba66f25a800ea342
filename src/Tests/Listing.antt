-- ===== src/Tests/Listing.antt =====
-- A list of two runs, last, in pages of one.
use triggerlink.Prelude.{
  ◌*◌, ◌≡◌, refl, none, List, [], ◌∷◌, ◌++◌, Text, txt, ◌==◌, ◌⊎◌, inl, inr, take, if◌then◌else◌,
}
use triggerlink.Effects.{Outcome, returned}
use triggerlink.Dashboard.{initial, settle}
use triggerlink.Dashboard.Api.{Fetch, Answer, call, qs}
use triggerlink.Dashboard.Runs.{
  Run, RunPage, RunList, opened, runs, last, choose_status, add_page, poll, load_more,
}
use triggerlink.Dashboard.Runs.Paging.{IsPaged, first, more, runs-take}
use triggerlink.Tests.Sample.{host}

abbrev run : Text → Run
run id = record {
  id = id;
  function_id = txt "f";
  status = txt "completed";
  event_name = txt "e";
  attempt = 1;
  created_at = txt "t";
}

abbrev newer : Run
newer = run (txt "2")

abbrev older : Run
older = run (txt "1")

abbrev encode_query : List (Text × Text) → Text
encode_query [] = []
encode_query ((k, v) ∷ rest) = v

abbrev page : List Run → Outcome (Answer RunPage)
page rs = returned (record { status = 200; json = returned (record { runs = rs }) })

abbrev fetch : Fetch RunPage
fetch method url =
    if url == txt "/api/v1/runs?"
    then page (newer ∷ [])
    else if url == txt "/api/v1/runs?t|2"
    then page (older ∷ [])
    else page []

abbrev start : RunList
start = opened none none none

abbrev pub both : List Run
both = newer ∷ older ∷ []

after_run :
    (pre : List Run) (r : Run) (post : List Run)
    → both ≡ (pre ++ r ∷ []) ++ post
    → ((r ≡ newer) × (post ≡ older ∷ [])) ⊎ ((r ≡ older) × (post ≡ []))
after_run [] r post same = inl (cc, cc)
after_run (x ∷ []) r post same = inr (cc, cc)
after_run (x ∷ y ∷ []) r post same = absurd (cc)
after_run (x ∷ y ∷ z ∷ pre) r post same = absurd (cc)

-- a page with no filter
fetch-IsPaged :
    (s : RunList)
    → s.function_id ≡ []
    → s.status ≡ []
    → s.event_id ≡ []
    → IsPaged host encode_query both 1 s fetch
unfolding call qs ◌==◌
fetch-IsPaged s f t v = record {
  first = rw (f, t, v);
  after = λ pre r post same. elim (after_run pre r post same) [
    | inl (e, rest) ↦ rw (e, rest, f, t, v)
    | inr (e, rest) ↦ rw (e, rest, f, t, v)
  ];
}

once-IsPaged : IsPaged host encode_query both 1 (poll host encode_query fetch start) fetch
unfolding poll
once-IsPaged = fetch-IsPaged _ refl refl refl

runs-take_example :
    runs (load_more host encode_query fetch (poll host encode_query fetch start))
    ≡ take (2 * 1) both
runs-take_example =
    runs-take host encode_query both 1 1 _
      (more (first refl (fetch-IsPaged start refl refl refl)) once-IsPaged)

-- Two clicks before the first is answered: both ask for the same page.
twice_test :
    runs (
      add_page
        (returned (record { runs = older ∷ [] }))
        (add_page (returned (record { runs = older ∷ [] })) (poll host encode_query fetch start)))
    ≡ newer ∷ older ∷ older ∷ []
unfolding poll call qs ◌==◌
twice_test = refl

-- A page that is asked for before a choice of the filter, and answered after it.
other_filter_test :
    (add_page
      (returned (record { runs = older ∷ [] }))
      (choose_status (txt "failed") (poll host encode_query fetch start))).extra
    ≡ older ∷ []
other_filter_test = refl

-- A run that is created after "Load more": the next poll pushes the newer of the two out of the table.
gap_test :
    runs (record (load_more host encode_query fetch (poll host encode_query fetch start)) {
      polled = settle (returned (record { runs = run (txt "3") ∷ [] })) initial;
    })
    ≡ run (txt "3") ∷ older ∷ []
unfolding load_more last poll call qs ◌==◌
gap_test = refl

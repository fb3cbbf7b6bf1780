-- ===== src/Worker/Tests.antt =====
-- Concrete deliveries of jobs to the worker.
use share_sentinel.Prelude.{
  ℕ, ◌≡◌, ◌≤◌, refl, true, false, none, some, [], ◌∷◌, codes, elem, inl, after, same_codes, lower,
}
use share_sentinel.Graph.{link_of, lower_or, is_broad}
use share_sentinel.Pipeline.Retry.{retry_with_backoff}
use share_sentinel.Pipeline.SecondLook.{is_retryable}
use share_sentinel.Worker.Sharing.{
  extract_all_sharing_links, has_active_sharing_links, web_url_of, expiration_of,
}
use share_sentinel.Worker.Gate.{keeps_open}
use share_sentinel.Worker.Events.{processing, completed, get_event, update_event_metadata, is_stuck}
use share_sentinel.Worker.Analysis.{full_analysis, raise, transient, run_ai_analysis}
use share_sentinel.Worker.Item.{Store}
use share_sentinel.Worker.File.{process_single_file, close}
use share_sentinel.Worker.Ended.{IsSettled, process_single_file-IsSettled}
use share_sentinel.Worker.Job.{process_job, process_file, process_files}
use share_sentinel.Worker.Finished.{IsFinished, process_file-IsFinished}
use share_sentinel.Worker.Retries.{backoffs, GivesUp, retries_bounded, retries_exhausted}
use share_sentinel.Worker.Startup.{start_up}
use share_sentinel.Worker.Reclaimed.{IsRescued, stuck-IsRescued, reclaimed_skipped}
use share_sentinel.Worker.Duplicate.{redelivered, process_job_duplicate, process_single_file_shut}
use share_sentinel.Worker.Samples.{
  permission, link, job, answers, environment, shared, row, database, world, config, station, busy,
}

process_single_file-IsSettled_example :
    IsSettled
      (environment 100 full_analysis shared answers)
      job
      false
      (some 0)
      processing
      database
      (process_single_file
        (environment 100 full_analysis shared answers)
        job
        false
        none
        (world (row processing ∷ [])).store)
unfolding get_event
process_single_file-IsSettled_example =
    process_single_file-IsSettled (environment 100 full_analysis shared answers) job false (some 0)
      processing none (world (row processing ∷ [])).store
      (record { row = row processing; found = refl; count = refl; status = refl })

process_file-IsFinished_example :
    IsFinished config 100 "e1"
      (some 0)
      (world [])
      (process_file config (environment 100 full_analysis shared answers) job (world []))
unfolding get_event
process_file-IsFinished_example =
    process_file-IsFinished config (environment 100 full_analysis shared answers) job (some 0)
      (world []) (inl (refl, refl))

retries_bounded_example :
    (c : ℕ) × (c ≤ 3)
    × ((process_files config job (busy 100 ∷ busy 300 ∷ []) (world [])).pushes
        ≡ backoffs config "e1" c)
unfolding get_event
retries_bounded_example = retries_bounded config job (busy 100 ∷ busy 300 ∷ []) (world []) refl refl

busy-FailsTransiently :
    (st : Store) → (process_single_file (busy 100) job false none st).1 ≡ raise transient
unfolding process_single_file extract_all_sharing_links has_active_sharing_links link_of lower_or
    is_broad web_url_of expiration_of after same_codes lower run_ai_analysis retry_with_backoff
    is_retryable
busy-FailsTransiently st = refl

retries_exhausted_example :
    GivesUp config "e1"
      (world [])
      (process_files config job (busy 100 ∷ busy 100 ∷ busy 100 ∷ busy 100 ∷ []) (world []))
unfolding get_event
retries_exhausted_example =
    let f = busy-FailsTransiently in
    retries_exhausted config job (busy 100) (busy 100 ∷ busy 100 ∷ busy 100 ∷ []) (world [])
      (f, (f, (f, (f, tt)))) refl refl refl

process_job_duplicate_example :
    let w' =
      process_job config 200 "e1"
        (process_single_file (environment 200 full_analysis shared answers) job false none)
        (world (row completed ∷ [])) in
    (w'.store.db ≡ database)
    × (w'.pushes ≡ [])
    × (w'.notices ≡ [])
    × (get_event "e1" w'.store.events ≡ some (redelivered 200 (row completed)))
unfolding get_event
process_job_duplicate_example =
    process_job_duplicate config 200 "e1"
      (process_single_file (environment 200 full_analysis shared answers) job false none)
      (world (row completed ∷ [])) refl refl

process_single_file_shut_example :
    process_single_file
      (environment 600 full_analysis shared answers)
      job
      false
      none
      (world (row processing ∷ [])).store
    ≡ close
        (environment 600 full_analysis shared answers)
        job
        false
        "no_active_sharing_links"
        (record {
          events = update_event_metadata 600 "e1" "d1" "i1" (row processing ∷ []);
          db = database;
        })
unfolding extract_all_sharing_links keeps_open link_of lower_or is_broad web_url_of expiration_of
    after same_codes lower
process_single_file_shut_example =
    process_single_file_shut (environment 600 full_analysis shared answers) job false
      (world (row processing ∷ [])).store (codes "a.txt") "d1" "i1" (permission ∷ []) (link ∷ [])
      refl refl refl refl refl refl

stuck-IsRescued_example : IsRescued config 5000 "e1" (start_up config 5000 60 station)
unfolding is_stuck
stuck-IsRescued_example = stuck-IsRescued config 5000 "e1" 60 station refl

reclaimed_skipped_example :
    let w = world (start_up config 200 60 station).events in
    let w' =
      process_job config 300 "e1"
        (process_single_file (environment 300 full_analysis shared answers) job false none)
        w in
    (elem "e1" (start_up config 200 60 station).broker.queue ≡ true)
    × (get_event "e1" w'.store.events ≡ some (redelivered 300 (row processing)))
    × (w'.pushes ≡ [])
unfolding get_event is_stuck elem
reclaimed_skipped_example =
    reclaimed_skipped config 200 "e1" 60 station 300
      (process_single_file (environment 300 full_analysis shared answers) job false none)
      (world (start_up config 200 60 station).events) refl refl refl refl refl

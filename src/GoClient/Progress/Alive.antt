-- ===== src/GoClient/Progress/Alive.antt =====
-- hooks/useImportProgress.ts of the Go pipeline's client: a job that is followed is not forgotten.
use csv_product_uploader.Prelude.{
  ℕ, Bool, true, false, ◌||◌, if◌then◌else◌, List, Option, none, some, String, eq_iff, ◌≡◌, refl,
  ap, arith, Bool-cases, ◌⊎◌, inl, inr,
}
use csv_product_uploader.Client.Dashboard.{is_set, same_id}
use csv_product_uploader.GoClient.Jobs.{ImportJob, is_settled}
use csv_product_uploader.GoClient.Progress.{
  ImportProgress, follow, set_job_id, Frame, malformed, null_data, parsed, handle, receive_frame,
  on_error, polls_on, send_poll, is_asked, use_poll, answer_poll,
}

abbrev pub has_job : Option ImportJob → Bool
has_job none = false
has_job (some j) = true

-- What keeps the hook going: it is complete, it polls, or its event source is open.
abbrev pub GoesOn : ImportProgress → Type 0
GoesOn p = (p.is_complete ≡ true) ⊎ ((p.using_polling ≡ true) ⊎ (p.source ≡ p.job_id))

pub record IsAlive (p : ImportProgress) : Type 0 where
  pub settled : p.is_complete ≡ true → has_job p.job ≡ true
  pub live : is_set p.job_id ≡ true → GoesOn p
  pub sourced : (id : String) → p.source ≡ some id → p.job_id ≡ some id

pub same_id-eq : (a b : Option String) → same_id a b ≡ true → a ≡ b
same_id-eq none none h = refl
same_id-eq (some a) (some b) h = ap some ((eq_iff a b).0 h)
same_id-eq none (some b) h = absurd (ground arith)
same_id-eq (some a) none h = absurd (ground arith)

opened :
    (id : Option String) (b : Bool) (i : String) → (if b then id else none) ≡ some i → id ≡ some i
opened id true i e = e
opened id false i e = absurd (ground arith)

opened_set : (id : Option String) → is_set id ≡ true → (if is_set id then id else none) ≡ id
opened_set id h = rw h

follow-IsAlive : (id : Option String) (p : ImportProgress) → IsAlive (follow id p)
unfolding follow
follow-IsAlive id p = record {
  settled = λ e. absurd (ground arith);
  live = λ h. inr (inr (opened_set id h));
  sourced = λ i e. opened id (is_set id) i e;
}

pub set_job_id-IsAlive :
    (id : Option String) (p : ImportProgress) → IsAlive p → IsAlive (set_job_id id p)
unfolding set_job_id
set_job_id-IsAlive id p a = elim (Bool-cases (same_id p.job_id id)) [
  | inl same ↦ rw same a
  | inr changed ↦ rw changed (follow-IsAlive id p)
]

pub set_job_id-job_id : (id : Option String) (p : ImportProgress) → (set_job_id id p).job_id ≡ id
unfolding set_job_id follow
set_job_id-job_id id p = elim (Bool-cases (same_id p.job_id id)) [
  | inl same ↦ rw same (same_id-eq p.job_id id same)
  | inr changed ↦ rw changed refl
]

-- An event that can be read carries a job.
abbrev pub IsJob : Frame → Type 0
IsJob null_data = ⊥
IsJob _ = Unit

completed-IsAlive :
    (j : ImportJob) (id : Option String) (polls : List String) (polling : Bool)
    → IsAlive (record {
      job_id = id;
      job = some j;
      is_complete = true;
      using_polling = polling;
      source = none;
      polls = polls;
    })
completed-IsAlive j id polls polling = record {
  settled = λ e. refl;
  live = λ h. inl refl;
  sourced = λ i e. absurd (ground arith);
}

handle-IsAlive :
    (f : Frame) (done : Bool) (p : ImportProgress) → IsJob f → IsAlive p → IsAlive (handle f done p)
unfolding handle
handle-IsAlive malformed done p j a = a
handle-IsAlive null_data done p j a = absurd j
handle-IsAlive (parsed j) done p _ a = elim (Bool-cases (done || is_settled j.status)) [
  | inl over ↦ rw over (completed-IsAlive j p.job_id p.polls p.using_polling)
  | inr going ↦ rw going (record { settled = λ e. refl; live = a.live; sourced = a.sourced })
]

pub receive_frame-IsAlive :
    (source : Option String) (f : Frame) (done : Bool) (p : ImportProgress)
    → IsJob f
    → IsAlive p
    → IsAlive (receive_frame source f done p)
receive_frame-IsAlive none f done p j a = a
receive_frame-IsAlive (some id) f done p j a = handle-IsAlive f done p j a

pub on_error-IsAlive :
    (source : Option String) (p : ImportProgress) → IsAlive p → IsAlive (on_error source p)
on_error-IsAlive none p a = a
on_error-IsAlive (some id) p a = record {
  settled = a.settled;
  live = λ h. inr (inl refl);
  sourced = λ i e. absurd (ground arith);
}

pub send_poll-IsAlive : (p : ImportProgress) → IsAlive p → IsAlive (send_poll p)
unfolding send_poll
send_poll-IsAlive p a = elim (Bool-cases (polls_on p)) [
  | inl due ↦ rw due (record { settled = a.settled; live = a.live; sourced = a.sourced })
  | inr off ↦ rw off a
]

use_poll-IsAlive : (j : Option ImportJob) (p : ImportProgress) → IsAlive p → IsAlive (use_poll j p)
use_poll-IsAlive none p a = a
use_poll-IsAlive (some j) p a = elim (Bool-cases (is_settled j.status)) [
  | inl over ↦ rw over (record { settled = λ e. refl; live = λ h. inl refl; sourced = a.sourced })
  | inr going ↦ rw going (record { settled = λ e. refl; live = a.live; sourced = a.sourced })
]

pub answer_poll-IsAlive :
    (n : ℕ) (j : Option ImportJob) (p : ImportProgress) → IsAlive p → IsAlive (answer_poll n j p)
unfolding answer_poll
answer_poll-IsAlive n j p a = elim (Bool-cases (is_asked n p.polls)) [
  | inl asked_for ↦
      rw asked_for
        (use_poll-IsAlive j _ (record { settled = a.settled; live = a.live; sourced = a.sourced }))
  | inr other ↦ rw other a
]

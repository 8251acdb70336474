-- ===== src/Graph.antt =====
-- The dependency graph (src/dispatcher/dispatcher.go: validateDependencyShape,
-- dependsTransitivelyLocked): the shape of one job's dependencies, and the search for a cycle.
pub mod Reach
pub mod Complete
use mathlib.Core.List.{reverse}
use hydra_umc_job_dispatcher.Common.{
  ℕ, zero, suc, ◌+◌, Bool, true, false, Option, none, some, List, [], ◌∷◌, ◌++◌, Text, eqt,
  is_blank, length, if◌then◌else◌,
}
use hydra_umc_job_dispatcher.Common.Keyed.{find}
use hydra_umc_job_dispatcher.Model.{Job, Error, invalid_job, job_key, mem_text}

-- The loop of validateDependencyShape; `none` is a nil error.
validate_from : Text → List Text → List Text → Option Error
validate_from job_id seen [] = none
validate_from job_id seen (dep ∷ deps) =
    if is_blank dep
    then some invalid_job
    else if eqt dep job_id
    then some invalid_job
    else if mem_text dep seen
    then some invalid_job
    else validate_from job_id (dep ∷ seen) deps

unfoldable pub validate_dependency_shape : Text → List Text → Option Error
unfolding validate_from
validate_dependency_shape job_id dependencies = validate_from job_id [] dependencies

-- d.DependsOn of the job `id`, or nothing for an id that the queue does not hold
unfoldable pub deps_of : List Job → Text → List Text
deps_of jobs id = elim (find job_key id jobs) [ none ↦ [] | some d ↦ d.depends_on ]

-- The loop of dependsTransitivelyLocked. The head of `stack` is its top, the end of the slice.
unfoldable pub search_from : ℕ → List Job → Text → List Text → List Text → Bool
search_from zero jobs target seen stack = false
search_from (suc fuel) jobs target seen [] = false
search_from (suc fuel) jobs target seen (id ∷ stack) =
    let skipped = search_from fuel jobs target seen stack in
    let followed = search_from fuel jobs target (id ∷ seen) (reverse (deps_of jobs id) ++ stack) in
    if eqt id target then true else if mem_text id seen then skipped else followed

-- The dependencies listed in the queue: with the roots, a bound on the rounds of the search.
unfoldable pub count_deps : List Job → ℕ
count_deps [] = 0
count_deps (j ∷ js) = length j.depends_on + count_deps js

unfoldable pub depends_transitively : List Job → List Text → Text → Bool
unfolding search_from
depends_transitively jobs roots target =
    search_from (suc (length roots + count_deps jobs)) jobs target [] (reverse roots)

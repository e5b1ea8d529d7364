-- ===== src/Lib.antt =====
-- The core of a training and judge center: submissions, their judging in sandboxes, the pool of
-- containers behind the sandboxes, problems and their validation, contests, the standings that the
-- judged submissions give, the memberships of groups, the login sessions and the streaks of a
-- profile.
--
-- Paths below are under training-and-judge-center-backend/.
--
-- A submission (internal/domain/submission) is made pending, started and given one final status.
-- Submission models the record and its transitions, one function per method; Submission/Statuses
-- the texts of the statuses; Submission/Lifecycle whole histories of calls.
--
-- A worker judges a submission (internal/application/judge/judge_submission.go): it claims it in the
-- database, fetches source code, limits and test cases, and tries up to RetryConfig.MaxAttempts
-- times to compile and run it. Judge/Attempt models judgeAttempt, from the containers it claims to
-- the verdict, and Judge/Execute models Execute with its retry loop and persistVerdict. The
-- sandbox, the providers and the database are interfaces in the source: what their calls answer is
-- an argument (Sandbox, Env). The retry loop recurses
-- on the attempts left.
--
-- The sandboxes claim containers of a pool (internal/adapter/judge/pool). Pool/Containers and
-- Pool/Operations model the pool and its methods, each as one call; the daemon's answers are the
-- argument Docker. The eviction loop of Claim runs on fuel, one more than the number of containers:
-- each round removes one, so the fuel outlasts the loop. Pool/Races takes Claim
-- apart into its critical sections, for claims that run at the same time.
--
-- A contest (internal/domain/contest) has a schedule, a freeze and a numbered list of problems.
-- Contest/Settings models its value objects and validations, Contest/Aggregate its methods,
-- Contest/Letters the labels of its problems. The loop that makes a label divides by 26 each round,
-- so the order itself is enough fuel.
--
-- The standings (internal/application/contest) are rebuilt from registrations, teams and submissions
-- and then ranked. Standings/Rebuild models rebuild in get_standings.go, Standings/Ranking models
-- RankStandings in icpc_ranking.go; the other files under Standings are their theory.
--
-- An author writes a problem (internal/domain/problem), fills it with test cases, solutions, a
-- checker and a validator, and asks to publish it. The request makes a validation ticket and puts
-- it on a queue; a worker takes it, compiles the checker and the validator, judges the author's
-- solutions and publishes the problem when they behave. New judging files of a published problem go
-- through a ticket too, which keeps them staged until they pass. A scheduled sweep ends the tickets
-- that stay running. Problem/Aggregate and Problem/Fields model the record and its value objects,
-- Problem/Tickets the tickets and their table with its partial unique index, Problem/Store what a
-- use case reads and writes, Problem/Publishing the use cases publish_problem and
-- request_problem_validation, Problem/Editing the edits of an author, Problem/Files and
-- Problem/Uploads upload_files, Problem/Checks and Problem/Worker validate_problem, Problem/Reports
-- the reports on a ticket
-- (internal/application/problem, with internal/adapter/problem). Judge/Preparation models
-- prepare_judging.go and Judge/Solutions validate_solutions.go, the parts of the judge that the
-- worker calls.
--
-- Problem/Steps runs the parts together, as a step relation on one problem and its tickets. A request
-- that makes a ticket is one step; an edit is two, the read with its checks and the write; and a run
-- of the worker is two, before and after the judge. Other steps, sweeps too, may come between. What
-- the outer systems answer is an argument of the step. In the relation a new ticket has a fresh key
-- and a later instant than the tickets before it. IsAllCalm singles out the histories in which every
-- edit writes on the store that it read and every sweep spares the ticket of a run; Problem/Swept is
-- a history that is not. The table holds the rows of one problem. The files of an upload are taken in
-- order, and the retries of checkSolutionWithRetry recurse on the attempts left.
--
-- Users belong to groups, and a group is to have a lead. Group/Members models the members
-- (internal/domain/group) and the queries on their table (internal/adapter/group), Group/Operations
-- the use cases change_role, leave_group and remove_member (internal/application/group); Group/Races
-- runs two of them at the same time. One joins an open group, asks to join, accepts an invitation or
-- is added: Group/Policies models the group and its policies, Group/Requests and Group/Invitations
-- the requests and invitations with the queries on their tables, Group/Joining the use cases. What
-- other requests do between the checks of ApproveRequest or AcceptInvite and its transaction is the
-- argument meanwhile.
--
-- A user stays logged in by exchanging refresh tokens. Session/Tokens models the tokens
-- (internal/domain/user/refresh_token.go) and the queries on their table, Session/Refresh the use
-- case (internal/application/user/refresh.go). What other requests do to the table while a refresh
-- runs is the argument meanwhile.
--
-- A profile shows the streaks of days with a submission; Streak/Count models computeStreak in
-- internal/application/user/streak.go.
--
-- Instants and durations are nanoseconds, and an instant counts from the zero time; machine integers
-- that the source only compares and adds are natural numbers or, where they can be negative,
-- integers; the products that turn minutes into a duration, and that double a wait, wrap in a signed
-- word of 64 bits. Texts are the language's strings. A map is an association list. A method that mutates
-- its receiver returns the new record, and an error is a value (Apperror, after pkg/apperror). The
-- messages of errors and the log lines are not modelled.
--
-- Not modelled: the HTTP layer, the other SQL and Mongo repositories, the queue, storage and e-mail
-- adapters, configuration and wiring (input and output around the core), accounts and their passwords,
-- the sending of invitations, the creation and deletion of groups, the materials and teams of the
-- center, and the import, the deletion and the views of problems. The removal of staged files after a
-- ticket, whose errors the code only logs, is left out.
pub mod Prelude
pub mod Apperror
pub mod Submission
pub mod Judge
pub mod Pool
pub mod Contest
pub mod Standings
pub mod Group
pub mod Session
pub mod Streak
pub mod Problem

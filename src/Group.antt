-- ===== src/Group.antt =====
-- Groups and their members: internal/domain/group/group_member.go and member_role.go, the use cases
-- of internal/application/group that change memberships, and the queries that they run.
pub mod Members
pub mod Operations
pub mod Policies
pub mod Requests
pub mod Invitations
pub mod Joining
pub mod Counts
pub mod Enrolments
pub mod Approvals
pub mod Acceptances
pub mod Leads
pub mod Races
mod Examples

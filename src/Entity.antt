-- ===== src/Entity.antt =====
-- internal/entity: the records that the parts of the service exchange. `Entity.Job` is the life
-- cycle of a job (job.go) with its laws in `Entity.Edges`, `Entity.User` the users (user.go).
pub mod Job
pub mod Edges
pub mod User

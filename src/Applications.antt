-- ===== src/Applications.antt =====
-- The queries of applications: app/routers/app_router.py, with app/routers/v1/applied.py, which has
-- the same functions, and the parameters of app/schemas/app_jobs.py.
pub mod Filters
pub mod Pages
pub mod Keys
pub mod Walks
pub mod Complete

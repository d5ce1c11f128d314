-- ===== src/Examples.antt =====
-- Concrete runs of the theorems, by part.
mod Steady
mod Loading
mod Proxying
mod Serving
mod Sessions
mod Reloading
mod Building
mod Following
mod Tokens

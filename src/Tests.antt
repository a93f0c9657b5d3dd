-- ===== src/Tests.antt =====
-- Runs of the model and instances of the theorems on concrete inputs.
mod Blank
mod Code
mod Queues
mod Trees
mod Semaphores
mod Handlers
mod Users
mod Recording
mod Calls
mod Crowd
mod Doomed
mod Places
mod Printing
mod Running
mod Boot

-- ===== src/Tests.antt =====
-- Runs of the model on concrete inputs, and the theorems at concrete inputs.
mod Histories
mod Texts
mod Annotations
mod Transitions
mod Documents
mod Registrations
mod Journals
mod Requests
mod Admissions

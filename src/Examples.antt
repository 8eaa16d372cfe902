-- ===== src/Examples.antt =====
-- Tests and instances: the functions run on concrete rows, and the results applied to them.
mod Data
mod Pricing
mod Delivering
mod Sending
mod Submitting
mod Operating
mod Receiving
mod Registering
mod Members
mod Posting

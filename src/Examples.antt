-- ===== src/Examples.antt =====
-- Runs of the model on small data, and the theorems applied to them: one action that reads the
-- queue `orders`, on a store whose transactions all commit.
mod Fixtures
mod Running
mod Storing
mod Capturing
mod Emitting
mod Defining
mod Serving
mod Starting
mod Calling
mod Commanding
mod Configuring
